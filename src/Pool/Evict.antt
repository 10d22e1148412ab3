-- ===== src/Pool/Evict.antt =====
-- The revocation of clients that were lent for too long, in `open` of core/ClientPool.cpp.
use sfproxy.Prelude.{
  ℕ, zero, suc, ◌≤◌, ◌<◌, ◌≡◌, refl, sym, ◌∙◌, subst, ◌⊎◌, inl, inr, true, false, some, List, [],
  ◌∷◌, arith, ◌==◌, ==_iff, Bool-cases, length, All,
}
use sfproxy.AddressSet.{occ, occ_snoc, occ-set_erase, length-set_erase, members, All-at}
use sfproxy.Client.{Client, set_in_using}
use sfproxy.Pool.{Pool, Heap, update, timed_out, revoke, evict_pass, evict}
use sfproxy.Pool.Invariant.{IsValid, IsLent, IsIdle, IsLent-inv}
use sfproxy.Pool.Revoke.{revoke-IsValid}

-- The client at `a` is lent, and was last taken longer ago than the timeout.
abbrev pub Expired : ℕ → Pool → ℕ → Type 0
Expired now p a =
    (c : Client) × (p.heap a ≡ some c)
    × (timed_out p.used_timeout now c ≡ true)
    × (0 < occ a p.lent)

-- The places of an address, and what lies there.
abbrev pub Untouched : Pool → Pool → ℕ → Type 0
Untouched p q a =
    (occ a q.lent ≡ occ a p.lent)
    × (occ a q.idle ≡ occ a p.idle)
    × (occ a q.to_destrory ≡ occ a p.to_destrory)
    × (q.heap a ≡ p.heap a)

-- The client at `a` has expired in `p`, and in `q` it is unused and on the list to destroy.
abbrev pub Revoked : ℕ → Pool → Pool → ℕ → Type 0
Revoked now p q a =
    Expired now p a × (occ a q.lent ≡ 0) × (occ a q.to_destrory ≡ 1) × IsIdle (q.heap a)

-- An address is revoked if its client has expired, and else it is left alone.
abbrev pub Evicts : ℕ → Pool → Pool → Type 0
Evicts now p q = (a : ℕ) → Revoked now p q a ⊎ ((¬ Expired now p a) × Untouched p q a)

abbrev PassResult : ℕ → List ℕ → Pool → Type 0
PassResult now xs p =
    ((evict_pass now xs p ≡ some (p, true)) × All (λ a. ¬ Expired now p a) xs)
    ⊎ ((a : ℕ) × (c : Client) × (evict_pass now xs p ≡ some (revoke a c p, false))
        × (p.heap a ≡ some c)
        × (timed_out p.used_timeout now c ≡ true)
        × (0 < occ a p.lent))

module _ (now a : ℕ) (c : Client) (xs : List ℕ) (p : Pool) (there : p.heap a ≡ some c) where
  pass_late :
      timed_out p.used_timeout now c ≡ true → evict_pass now (a ∷ xs) p ≡ some (revoke a c p, false)
  unfolding evict_pass
  pass_late late = rw there (rw late)

  pass_early :
      timed_out p.used_timeout now c ≡ false → evict_pass now (a ∷ xs) p ≡ evict_pass now xs p
  unfolding evict_pass
  pass_early early = rw there (rw early)

  -- What has not timed out is not expired.
  early_kept : timed_out p.used_timeout now c ≡ false → ¬ Expired now p a
  early_kept early (d, here, late, _) = ground (arith, there, here, early, late)

pass_result :
    (now : ℕ) (xs : List ℕ) (p : Pool)
    → IsValid p
    → All (λ a. 0 < occ a p.lent) xs
    → PassResult now xs p
unfolding evict_pass
pass_result now [] p v m = inl (refl, tt)
pass_result now (a ∷ xs) p v m =
    let (c, there, one, event) = IsLent-inv (p.heap a) ((v a).lent_one m.0) in
    elim (Bool-cases (timed_out p.used_timeout now c)) [
      | inl late ↦ inr (a, c, pass_late now a c xs p there late, there, late, m.0)
      | inr early ↦ elim (pass_result now xs p v m.1) [
        | inl (done, kept) ↦ inl (
          pass_early now a c xs p there early ∙ done,
          (early_kept now a c xs p there early, kept),
        )
        | inr (b, d, found, here, late, lent) ↦
            inr (b, d, pass_early now a c xs p there early ∙ found, here, late, lent)
      ]
    ]

Untouched-refl : (p : Pool) (a : ℕ) → Untouched p p a
Untouched-refl p a = (refl, refl, refl, refl)

update-IsIdle :
    (heap : Heap) (a : ℕ) (c : Client)
    → IsLent (some c)
    → IsIdle (update heap a (some (set_in_using false c)) a)
unfolding set_in_using
update-IsIdle heap a c used =
    let own : (a == a) ≡ true = ground arith in rw own (rw used.0 refl, used.1)

-- Where `revoke` works, the client is out of the lent ones, and on the list to destroy once.
revoke_own :
    (p : Pool) (a : ℕ) (c : Client)
    → IsValid p
    → p.heap a ≡ some c
    → 0 < occ a p.lent
    → (occ a (revoke a c p).lent ≡ 0)
      × (occ a (revoke a c p).to_destrory ≡ 1)
      × IsIdle ((revoke a c p).heap a)
unfolding revoke set_in_using
revoke_own p a c v there h =
    let used : IsLent (some c) = rw there at ((v a).lent_one h) in
    (
      ground (arith, occ-set_erase a a p.lent),
      ground (arith, occ_snoc a a p.to_destrory, (v a).once),
      update-IsIdle p.heap a c used,
    )

revoke_other : (p : Pool) (a b : ℕ) (c : Client) → (a == b) ≡ false → Untouched p (revoke a c p) b
unfolding revoke
revoke_other p a b c d = (
  ground (arith, occ-set_erase b a p.lent),
  refl,
  ground (arith, occ_snoc b a p.to_destrory),
  ground arith,
)

Expired-Untouched :
    (now : ℕ) (p q : Pool) (a : ℕ)
    → Untouched p q a
    → q.used_timeout ≡ p.used_timeout
    → Expired now q a
    → Expired now p a
Expired-Untouched now p q a u t (c, there, late, lent) =
    (c, sym (u.3) ∙ there, rw (← t) late, omega (arith, u.0))

Untouched-Expired :
    (now : ℕ) (p q : Pool) (a : ℕ)
    → Untouched p q a
    → q.used_timeout ≡ p.used_timeout
    → Expired now p a
    → Expired now q a
Untouched-Expired now p q a u t (c, there, late, lent) =
    (c, u.3 ∙ there, rw t late, omega (arith, u.0))

-- One revocation, and then the others.
revoke-Evicts :
    (now : ℕ) (p q : Pool) (a : ℕ) (c : Client)
    → IsValid p
    → p.heap a ≡ some c
    → timed_out p.used_timeout now c ≡ true
    → 0 < occ a p.lent
    → Evicts now (revoke a c p) q
    → Evicts now p q
revoke-Evicts now p q a c v there late lent rest b = elim (Bool-cases (a == b)) [
  | inl own ↦ subst Goal ((==_iff a b).0 own) here
  | inr other ↦ elsewhere (revoke_other p a b c other) (rest b)
]
  where
    Goal : ℕ → Type 0
    Goal x = Revoked now p q x ⊎ ((¬ Expired now p x) × Untouched p q x)

    here : Goal a
    here =
        let (l, d, i) = revoke_own p a c v there lent in
        elim (rest a) [
          | inl ((_, _, _, k), _, _, _) ↦ absurd (omega arith)
          | inr (_, u) ↦ inl ((c, there, late, lent), u.0 ∙ l, u.2 ∙ d, rw u.3 i)
        ]

    elsewhere :
        Untouched p (revoke a c p) b
        → Revoked now (revoke a c p) q b
          ⊎ ((¬ Expired now (revoke a c p) b) × Untouched (revoke a c p) q b)
        → Goal b
    elsewhere u (inl (x, l, d, i)) =
        inl (Expired-Untouched now p (revoke a c p) b u (unfold revoke in refl) x, l, d, i)
    elsewhere u (inr (n, w)) = inr (
      (λ x. n (Untouched-Expired now p (revoke a c p) b u (unfold revoke in refl) x)),
      (w.0 ∙ u.0, w.1 ∙ u.1, w.2 ∙ u.2, w.3 ∙ u.3),
    )

nothing-Expired : (now : ℕ) (p : Pool) → All (λ a. ¬ Expired now p a) p.lent → Evicts now p p
nothing-Expired now p kept a =
    inr ((λ x. All-at (λ b. ¬ Expired now p b) a p.lent kept x.3 x), Untouched-refl p a)

-- In a valid pool, with more fuel than clients are lent, the passes end. They read no freed client,
-- revoke exactly the clients that have expired, leave every other address alone, and leave a valid
-- pool.
pub evict-Evicts :
    (fuel now : ℕ) (p : Pool)
    → IsValid p
    → length p.lent < fuel
    → (q : Pool) × (evict fuel now p ≡ some q)
      × IsValid q
      × Evicts now p q
      × (q.max_client ≡ p.max_client)
      × (q.idle ≡ p.idle)
      × (length q.lent ≤ length p.lent)
unfolding evict
evict-Evicts zero now p v h = absurd (omega arith)
evict-Evicts (suc fuel) now p v h =
    elim (pass_result now p.lent p v (members p.lent p.lent (λ a. omega arith))) [
      | inl (done, kept) ↦ (p, rw done, v, nothing-Expired now p kept, refl, refl, omega arith)
      | inr (a, c, found, there, late, lent) ↦
          let shorter : length (revoke a c p).lent < length p.lent =
            unfold revoke in (length-set_erase a p.lent lent) in
          let (q, e, w, all, m, i, l) =
            evict-Evicts fuel now (revoke a c p) (revoke-IsValid p a c v lent) (omega arith) in
          (
            q,
            rw found e,
            w,
            revoke-Evicts now p q a c v there late lent all,
            m ∙ unfold revoke in refl,
            i ∙ unfold revoke in refl,
            omega arith,
          )
    ]
