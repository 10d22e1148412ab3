-- ===== src/Pool/Waiting.antt =====
-- `open` of core/ClientPool.cpp with an idle client that is connected.
use sfproxy.Prelude.{
  ℕ, ◌+◌, ◌≡◌, refl, ◌∙◌, inl, inr, true, false, Option, some, List, ◌∷◌, arith, ◌==◌,
  if◌then◌else◌, ℤ, pos, negsuc, ltb_ℤ, eq_ℤ,
}
use sfproxy.AddressSet.{occ}
use sfproxy.Client.{Client}
use sfproxy.Pool.{Pool, lend, size, open_locked, destroy_clients}
use sfproxy.Pool.Invariant.{IsValid}
use sfproxy.Pool.Open.{reuse_up, size-lend, idle_not_lent}
use sfproxy.Pool.Acquire.{open_keeps}
use sfproxy.Pool.Destroy.{DestroysAt}
use sfproxy.Pool.Reset.{destroy_clients-IsValid}
use sfproxy.Pool.Grows.{HasRoom}

idle_kept :
    (p : Pool) (a : ℕ) (rest : List ℕ) (k : ℕ) (o : Option Client)
    → IsValid p
    → p.idle ≡ a ∷ rest
    → DestroysAt false (occ a p.to_destrory) (p.heap a) k o
    → o ≡ p.heap a
unfolding occ
idle_kept p a rest k o v e (inl (_, listed, _, _)) =
    let count : occ a p.idle ≡ (if a == a then 1 else 0) + occ a rest = rw e in
    absurd (ground (arith, (v a).once, count))
idle_kept p a rest k o v e (inr (_, _, kept)) = kept

below_not_equal : (n : ℕ) (z : ℤ) → ltb_ℤ (pos n) z ≡ true → eq_ℤ (pos n) z ≡ false
below_not_equal n (pos m) h = ground arith
below_not_equal n (negsuc m) h = ground arith

-- The client at `a` is the first that is idle, and connected.
pub record IsWaiting (a : ℕ) (rest : List ℕ) (c : Client) (p : Pool) : Type 0 where
  pub first : p.idle ≡ a ∷ rest
  pub there : p.heap a ≡ some c
  pub up : c.connected ≡ true

pub open_idle :
    (fresh now a : ℕ) (rest : List ℕ) (c : Client) (p : Pool)
    → IsValid p
    → HasRoom p
    → IsWaiting a rest c p
    → (p1 : Pool) × (destroy_clients false p ≡ some p1)
      × (p1.heap a ≡ some c)
      × (p1.state_bag ≡ p.state_bag)
      × (open_locked fresh now p1 ≡ some (lend a c rest p1, some a))
unfolding lend
open_idle fresh now a rest c p v room w =
    let (p1, e, v1, d, l, i, bag, m, _) = destroy_clients-IsValid false p v in
    let first : p1.idle ≡ a ∷ rest = i ∙ w.first in
    let there : p1.heap a ≡ some c = idle_kept p a rest _ _ v w.first (d a) ∙ w.there in
    let room1 : ltb_ℤ (pos (size p1)) p1.max_client ≡ true = unfold size in (rw (l, i, m) room) in
    let same : size (lend a c rest p1) ≡ size p1 =
      size-lend a c rest p1 first (idle_not_lent p1 a rest v1 first) in
    (
      p1,
      e,
      there,
      bag,
      open_keeps fresh now p1 (lend a c rest p1) (some a)
          (rw first (reuse_up a c rest p1 there w.up)) refl
          (rw same (below_not_equal (size p1) p1.max_client room1)),
    )
