-- ===== src/Pool/Destroy.antt =====
-- `destroy_clients` and `reset` of core/ClientPool.cpp: what is freed, and what stays.
use sfproxy.Prelude.{
  ℕ, ◌+◌, ◌≤◌, ◌<◌, ◌≡◌, refl, sym, ◌∙◌, subst, ◌⊎◌, inl, inr, Bool, true, false, Option, none,
  some, List, [], ◌∷◌, arith, ◌==◌, ==_iff, ◌↔◌, ◌||◌, ℤ, pos, negsuc, ltb_ℤ, Bool-cases,
}
use sfproxy.AddressSet.{occ}
use sfproxy.Client.{Client}
use sfproxy.Pool.{Heap, update, destroy_list, doomed}
use sfproxy.Pool.Invariant.{IsLive}

-- A client that is destroyed: by force, or because its counter is not above 0.
abbrev pub IsDoomed : Bool → Option Client → Type 0
IsDoomed force none = ⊥
IsDoomed force (some c) = (force ≡ true) ⊎ (ltb_ℤ (pos 0) c.using_counter ≡ false)

counter_iff :
    (force : Bool) (z : ℤ)
    → ((force || ltb_ℤ z (pos 1)) ≡ true) ↔ ((force ≡ true) ⊎ (ltb_ℤ (pos 0) z ≡ false))
counter_iff true z = ((λ h. inl refl), λ h. refl)
counter_iff false (pos n) = ((λ h. inr (ground arith)), λ h. ground arith)
counter_iff false (negsuc n) = ((λ h. inr (ground arith)), λ h. ground arith)

doomed-IsDoomed : (force : Bool) (c : Client) → (doomed force c ≡ true) ↔ IsDoomed force (some c)
unfolding doomed
doomed-IsDoomed force c = counter_iff force c.using_counter

-- An address that stands `n` times in the list and holds `o`, and then stands there `k` times and
-- holds `o'`: a doomed client of the list is freed and leaves it, and all else stays.
abbrev pub DestroysAt : Bool → ℕ → Option Client → ℕ → Option Client → Type 0
DestroysAt force n o k o' =
    (IsDoomed force o × (0 < n) × (k ≡ 0) × (o' ≡ none))
    ⊎ ((¬ (IsDoomed force o × (0 < n))) × (k ≡ n) × (o' ≡ o))

abbrev pub Destroys : Bool → List ℕ → Heap → List ℕ → Heap → Type 0
Destroys force xs heap kept heap' =
    (a : ℕ) → DestroysAt force (occ a xs) (heap a) (occ a kept) (heap' a)

-- A list of live clients, each once.
abbrev pub IsOwned : List ℕ → Heap → Type 0
IsOwned xs heap = (a : ℕ) → (occ a xs ≤ 1) × (0 < occ a xs → IsLive (heap a))

IsLive-inv : (o : Option Client) → IsLive o → (c : Client) × (o ≡ some c)
IsLive-inv none h = elim h [ ]
IsLive-inv (some c) h = (c, refl)

occ_same : (a b : ℕ) (xs : List ℕ) → (a == b) ≡ true → occ b (a ∷ xs) ≡ 1 + occ b xs
unfolding occ
occ_same a b xs h = rw h

occ_other : (a b : ℕ) (xs : List ℕ) → (a == b) ≡ false → occ b (a ∷ xs) ≡ occ b xs
unfolding occ
occ_other a b xs h = rw h (omega arith)

module _ (force : Bool) (a : ℕ) (rest : List ℕ) (heap : Heap) (c : Client)
    (there : heap a ≡ some c) where
  destroy_head :
      doomed force c ≡ true
      → destroy_list force (a ∷ rest) heap ≡ destroy_list force rest (update heap a none)
  unfolding destroy_list
  destroy_head h = ground (arith, there)

  keep_head :
      {kept : List ℕ} {heap' : Heap}
      → doomed force c ≡ false
      → destroy_list force rest heap ≡ some (kept, heap')
      → destroy_list force (a ∷ rest) heap ≡ some (a ∷ kept, heap')
  unfolding destroy_list
  keep_head h e = ground (arith, there)

  tail-IsOwned : IsOwned (a ∷ rest) heap → IsOwned rest (update heap a none)
  tail-IsOwned o b = elim (Bool-cases (a == b)) [
    | inl e ↦ (
      omega (arith, occ_same a b rest e, (o b).0),
      λ k. absurd (omega (arith, occ_same a b rest e, (o b).0)),
    )
    | inr e ↦ (
      omega (arith, occ_other a b rest e, (o b).0),
      λ k. rw e ((o b).1 (omega (arith, occ_other a b rest e))),
    )
  ]

  keep-IsOwned : IsOwned (a ∷ rest) heap → IsOwned rest heap
  unfolding occ
  keep-IsOwned o b = (ground (arith, o b), λ k. (o b).1 (ground arith))

  destroy_Destroys :
      (kept : List ℕ) (heap' : Heap)
      → IsOwned (a ∷ rest) heap
      → doomed force c ≡ true
      → Destroys force rest (update heap a none) kept heap'
      → Destroys force (a ∷ rest) heap kept heap'
  destroy_Destroys kept heap' o h d b = elim (Bool-cases (a == b)) [
    | inl e ↦
        let count : occ b (a ∷ rest) ≡ 1 + occ b rest = occ_same a b rest e in
        let here : heap b ≡ some c = subst (λ x. heap x ≡ some c) ((==_iff a b).0 e) there in
        elim (d b) [
          | inl (_, k, _, _) ↦ absurd (omega (arith, (o b).0))
          | inr (_, k, g) ↦ inl (
            rw here ((doomed-IsDoomed force c).0 h),
            omega arith,
            omega (arith, (o b).0),
            g ∙ rw e refl,
          )
        ]
    | inr e ↦
        subst (λ n. DestroysAt force n (heap b) (occ b kept) (heap' b)) (sym (occ_other a b rest e))
          (rw e at (d b))
  ]

  keep_Destroys :
      (kept : List ℕ) (heap' : Heap)
      → doomed force c ≡ false
      → Destroys force rest heap kept heap'
      → Destroys force (a ∷ rest) heap (a ∷ kept) heap'
  keep_Destroys kept heap' h d b = elim (Bool-cases (a == b)) [
    | inl e ↦
        let here : heap b ≡ some c = subst (λ x. heap x ≡ some c) ((==_iff a b).0 e) there in
        let spared : ¬ IsDoomed force (heap b) =
          rw here (λ p. cc (h, (doomed-IsDoomed force c).1 p)) in
        elim (d b) [
          | inl (p, _, _, _) ↦ absurd (spared p)
          | inr (_, k, g) ↦
              inr ((λ p. spared p.0), omega (arith, occ_same a b rest e, occ_same a b kept e), g)
        ]
    | inr e ↦
        subst (λ n. DestroysAt force (occ b (a ∷ rest)) (heap b) n (heap' b))
          (sym (occ_other a b kept e))
          (subst (λ n. DestroysAt force n (heap b) (occ b kept) (heap' b))
            (sym (occ_other a b rest e)) (d b))
  ]

-- On live clients that stand once each, `destroy_clients` reads and frees nothing that is gone, and
-- frees exactly the doomed.
pub destroy_list-Destroys :
    (force : Bool) (xs : List ℕ) (heap : Heap)
    → IsOwned xs heap
    → (kept : List ℕ) × (heap' : Heap) × (destroy_list force xs heap ≡ some (kept, heap'))
      × Destroys force xs heap kept heap'
unfolding destroy_list
destroy_list-Destroys force [] heap o =
    ([], heap, refl, λ a. inr ((λ p. unfold occ in (absurd (omega (arith, p.1)))), refl, refl))
destroy_list-Destroys force (a ∷ rest) heap o =
    let (c, there) = IsLive-inv (heap a) ((o a).1 (unfold occ in (ground arith))) in
    elim (Bool-cases (doomed force c)) [
      | inl h ↦
          let (kept, heap', e, d) =
            destroy_list-Destroys force rest (update heap a none)
              (tail-IsOwned force a rest heap c there o) in
          (
            kept,
            heap',
            destroy_head force a rest heap c there h ∙ e,
            destroy_Destroys force a rest heap c there kept heap' o h d,
          )
      | inr h ↦
          let (kept, heap', e, d) =
            destroy_list-Destroys force rest heap (keep-IsOwned force a rest heap c there o) in
          (
            a ∷ kept,
            heap',
            keep_head force a rest heap c there h e,
            keep_Destroys force a rest heap c there kept heap' h d,
          )
    ]
