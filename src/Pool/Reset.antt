-- ===== src/Pool/Reset.antt =====
-- `destroy_clients` and `reset` of core/ClientPool.cpp on whole pools.
use sfproxy.Prelude.{
  ℕ, zero, suc, ◌+◌, ◌<◌, ◌≡◌, refl, ap, ◌∙◌, inl, inr, Bool, true, false, Option, none, some, List,
  [], ◌∷◌, ◌++◌, arith, ltb, ◌==◌, ltb→lt, Bool-cases, length, Str,
}
use sfproxy.AddressSet.{occ, occ-append}
use sfproxy.Client.{Client}
use sfproxy.StateBag.{ZkState}
use sfproxy.StateBag
use sfproxy.StateBag.Owners.{watches, get-reset_client_id, reset_client_id-watches}
use mathlib.Core.Option
use sfproxy.Pool.{Pool, destroy_clients, retire_all, destroy_rounds, reset}
use sfproxy.Pool.Invariant.{IsValid, IsPlaced, IsLive, idle→live, lent→live}
use sfproxy.Pool.Destroy.{Destroys, DestroysAt, IsOwned, destroy_list-Destroys}

pub dying-IsOwned : (p : Pool) → IsValid p → IsOwned p.to_destrory p.heap
dying-IsOwned p v a = (omega (arith, (v a).once), (v a).dying_one)

destroyed-IsPlaced :
    (p q : Pool) (force : Bool) (a : ℕ)
    → q.lent ≡ p.lent
    → q.idle ≡ p.idle
    → DestroysAt force (occ a p.to_destrory) (p.heap a) (occ a q.to_destrory) (q.heap a)
    → IsPlaced p a
    → IsPlaced q a
destroyed-IsPlaced p q force a l i (inl (_, n, k, g)) v = record {
  once = rw (l, i) (omega (arith, v.once));
  lent_one = rw l (λ h. absurd (omega (arith, v.once)));
  idle_one = rw i (λ h. absurd (omega (arith, v.once)));
  dying_one = λ h. absurd (omega arith);
}
destroyed-IsPlaced p q force a l i (inr (_, k, g)) v = record {
  once = rw (l, i) (omega (arith, v.once));
  lent_one = rw (l, g) v.lent_one;
  idle_one = rw (i, g) v.idle_one;
  dying_one = λ h. rw g (v.dying_one (omega arith));
}

-- In a valid pool `destroy_clients` frees exactly the clients on its list to destroy whose counter
-- is not above 0 (by force, all of the list) and takes them off it. Each client is on the list at
-- most once, so none is freed twice. The lent and the idle clients, the watches, the bound and the
-- timeout stay as they are, and the pool stays valid.
pub destroy_clients-IsValid :
    (force : Bool) (p : Pool)
    → IsValid p
    → (q : Pool) × (destroy_clients force p ≡ some q)
      × IsValid q
      × Destroys force p.to_destrory p.heap q.to_destrory q.heap
      × (q.lent ≡ p.lent)
      × (q.idle ≡ p.idle)
      × (q.state_bag ≡ p.state_bag)
      × (q.max_client ≡ p.max_client)
      × (q.used_timeout ≡ p.used_timeout)
unfolding destroy_clients
destroy_clients-IsValid force p v =
    let (kept, heap, e, d) = destroy_list-Destroys force p.to_destrory p.heap (dying-IsOwned p v) in
    let q : Pool = record p { to_destrory = kept; heap = heap } in
    (
      q,
      rw e refl,
      (λ a. destroyed-IsPlaced p q force a refl refl (d a) (v a)),
      d,
      refl,
      refl,
      refl,
      refl,
      refl,
    )

retire_all-IsValid : (p : Pool) → IsValid p → IsValid (retire_all p)
unfolding retire_all occ
retire_all-IsValid p v a =
    let placed = v a in
    let total : occ a (p.to_destrory ++ (p.lent ++ p.idle))
        ≡ occ a p.to_destrory + (occ a p.lent + occ a p.idle) =
      omega (arith, occ-append a p.to_destrory (p.lent ++ p.idle), occ-append a p.lent p.idle) in
    record {
      once = omega (arith, placed.once);
      lent_one = λ h. absurd (omega arith);
      idle_one = λ h. absurd (omega arith);
      dying_one = λ h. live placed (omega arith);
    }
  where
    live :
        IsPlaced p a → 0 < occ a p.to_destrory + (occ a p.lent + occ a p.idle) → IsLive (p.heap a)
    live w h = elim (Bool-cases (ltb 0 (occ a p.to_destrory))) [
      | inl d ↦ w.dying_one (ltb→lt _ _ d)
      | inr nd ↦ elim (Bool-cases (ltb 0 (occ a p.lent))) [
        | inl l ↦ lent→live (p.heap a) (w.lent_one (ltb→lt _ _ l))
        | inr nl ↦ idle→live (p.heap a) (w.idle_one (ground arith))
      ]
    ]

abbrev Kept : Pool → Pool → Type 0
Kept p q =
    (q.lent ≡ p.lent)
    × (q.idle ≡ p.idle)
    × (q.state_bag ≡ p.state_bag)
    × (q.max_client ≡ p.max_client)

destroy_rounds-IsValid :
    (n : ℕ) (p : Pool)
    → IsValid p
    → (q : Pool) × (destroy_rounds n p ≡ some q) × IsValid q × Kept p q
unfolding destroy_rounds
destroy_rounds-IsValid zero p v = (p, refl, v, (refl, refl, refl, refl))
destroy_rounds-IsValid (suc n) p v =
    let (p', e, w, _, l, i, s, m, _) = destroy_clients-IsValid false p v in
    let (q, found, x, kept) = destroy_rounds-IsValid n p' w in
    elim (Bool-cases (length p.to_destrory == 0)) [
      | inl done ↦ (p, ground arith, v, (refl, refl, refl, refl))
      | inr more ↦
          (q, ground (arith, e, found), x, (kept.0 ∙ l, kept.1 ∙ i, kept.2 ∙ s, kept.3 ∙ m))
    ]

pub no_members : (xs : List ℕ) → ((a : ℕ) → occ a xs ≡ 0) → xs ≡ []
unfolding occ
no_members [] h = refl
no_members (x ∷ xs) h = absurd (ground (arith, h x))

forced_at :
    (n : ℕ) (o : Option Client) (k : ℕ) (o' : Option Client)
    → (0 < n → IsLive o)
    → DestroysAt true n o k o'
    → k ≡ 0
forced_at n o k o' live (inl (_, _, e, _)) = e
forced_at zero o k o' live (inr (_, e, _)) = e
forced_at (suc n) none k o' live (inr (spared, e, _)) = absurd (live (omega arith))
forced_at (suc n) (some c) k o' live (inr (spared, e, _)) = absurd (spared (inl refl, omega arith))

-- By force nothing stays on the list.
forced :
    (p q : Pool)
    → IsValid p
    → Destroys true p.to_destrory p.heap q.to_destrory q.heap
    → q.to_destrory ≡ []
forced p q v d =
    no_members q.to_destrory (λ a. forced_at _ (p.heap a) _ (q.heap a) (v a).dying_one (d a))

-- `reset` of a valid pool, however long it waits while no other thread works, reads and frees no
-- client that is gone, and leaves a valid pool with no client at all, with the same bound. The pool
-- has a watch under the same keys as before, each with the path, the type and the text that it had,
-- and without a client.
pub reset-empty :
    (rounds : ℕ) (p : Pool)
    → IsValid p
    → (q : Pool) × (reset rounds p ≡ some q)
      × IsValid q
      × (q.lent ≡ [])
      × (q.idle ≡ [])
      × (q.to_destrory ≡ [])
      × ((k : Str)
          → StateBag.get k q.state_bag
            ≡ Option.map {A = ZkState}
                (λ s. record s { client_id = 0 })
                (StateBag.get k p.state_bag))
      × (watches 0 q.state_bag ≡ StateBag.size p.state_bag)
      × (q.max_client ≡ p.max_client)
unfolding reset
reset-empty rounds p v =
    let (p', e, w, kept) = destroy_rounds-IsValid rounds (retire_all p) (retire_all-IsValid p v) in
    let (q, f, x, d, l, i, s, m, _) = destroy_clients-IsValid true p' w in
    (
      q,
      rw (e, f) refl,
      x,
      l ∙ kept.0 ∙ unfold retire_all in refl,
      i ∙ kept.1 ∙ unfold retire_all in refl,
      forced p' q w d,
      λ k.
          ap (StateBag.get k) (s ∙ kept.2 ∙ unfold retire_all in refl)
          ∙ get-reset_client_id k p.state_bag,
      ap (watches 0) (s ∙ kept.2 ∙ unfold retire_all in refl)
          ∙ (reset_client_id-watches 1 p.state_bag (λ e. omega arith)).0,
      m ∙ kept.3 ∙ unfold retire_all in refl,
    )
