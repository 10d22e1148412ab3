-- ===== src/Pool/Revoke.antt =====
-- `revoke` of core/ClientPool.cpp, and the moves of clients to the list that destroys them.
use sfproxy.Prelude.{
  ℕ, ◌+◌, ◌<◌, ◌≡◌, refl, ◌∙◌, inl, inr, false, some, [], ◌∷◌, ◌++◌, arith, ◌==◌, Bool-cases,
}
use sfproxy.AddressSet.{
  set_insert, set_erase, occ, occ_snoc, occ-set_insert, occ-set_insert_ne, occ-set_erase,
}
use sfproxy.Client.{Client, set_in_using}
use sfproxy.Pool.{Pool, update, revoke}
use sfproxy.Pool.Invariant.{IsPlaced, IsIdle, IsValid, IsPlaced-same}

-- A client that leaves the lent ones for the list of clients to destroy.
pub dying_after :
    (p : Pool) (a b : ℕ) (c : Client)
    → IsPlaced p b
    → (a ≡ b → 0 < occ b p.lent)
    → IsPlaced
        (record p {
          lent = set_erase a p.lent;
          to_destrory = p.to_destrory ++ (a ∷ []);
          heap = update p.heap a (some c);
        })
        b
dying_after p a b c v h = elim (Bool-cases (a == b)) [
  | inl e ↦
      let there : 0 < occ b p.lent = h (ground arith) in
      let l : occ b (set_erase a p.lent) ≡ 0 = occ-set_erase b a p.lent ∙ rw e in
      let d : occ b (p.to_destrory ++ (a ∷ [])) ≡ occ b p.to_destrory + 1 =
        occ_snoc b a p.to_destrory ∙ rw e in
      record {
        once = omega (arith, v.once);
        lent_one = λ k. absurd (omega arith);
        idle_one = λ k. absurd (omega (arith, v.once));
        dying_one = λ _. rw e tt;
      }
  | inr e ↦
      IsPlaced-same p _ b (occ-set_erase b a p.lent ∙ rw e) refl
        (occ_snoc b a p.to_destrory ∙ rw e (omega arith)) (rw e) v
]

-- A client that leaves the lent ones for the idle ones.
pub idle_after :
    (p : Pool) (a b : ℕ) (c : Client)
    → IsPlaced p b
    → (a ≡ b → 0 < occ b p.lent)
    → IsIdle (some c)
    → IsPlaced
        (record p {
          lent = set_erase a p.lent;
          idle = set_insert a p.idle;
          heap = update p.heap a (some c);
        })
        b
idle_after p a b c v h free = elim (Bool-cases (a == b)) [
  | inl e ↦
      let there : 0 < occ b p.lent = h (ground arith) in
      let here : a ≡ b = ground arith in
      let l : occ b (set_erase a p.lent) ≡ 0 = occ-set_erase b a p.lent ∙ rw e in
      let none_idle : occ b p.idle ≡ 0 = omega (arith, v.once) in
      let i : occ b (set_insert a p.idle) ≡ 1 =
        occ-set_insert b a p.idle (rw here none_idle) ∙ ground arith in
      record {
        once = omega (arith, v.once);
        lent_one = λ k. absurd (omega arith);
        idle_one = λ _. rw e free;
        dying_one = λ k. absurd (omega (arith, v.once));
      }
  | inr e ↦
      IsPlaced-same p _ b (occ-set_erase b a p.lent ∙ rw e) (occ-set_insert_ne b a p.idle e) refl
        (rw e) v
]

pub revoke-IsValid :
    (p : Pool) (a : ℕ) (c : Client) → IsValid p → 0 < occ a p.lent → IsValid (revoke a c p)
unfolding revoke
revoke-IsValid p a c v h b =
    let w = dying_after p a b (set_in_using false c) (v b) (λ e. rw (← e) h) in
    record { once = w.once; lent_one = w.lent_one; idle_one = w.idle_one; dying_one = w.dying_one }
