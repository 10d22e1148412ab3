-- ===== src/Pool/Acquire.antt =====
-- The whole locked part of `open` of core/ClientPool.cpp.
use sfproxy.Prelude.{
  ℕ, suc, ◌+◌, ◌≤◌, ◌<◌, ◌≡◌, refl, ap, ◌∙◌, ◌⊎◌, inl, inr, Bool, true, false, ◌&&◌, Option, none,
  some, [], arith, ◌==◌, Bool-cases, length, ℤ, pos, ltb_ℤ, eq_ℤ,
}
use sfproxy.AddressSet.{occ, length-set_insert}
use sfproxy.Pool.{Pool, reuse, create, evict, size, is_none, open_locked}
use sfproxy.Pool.Invariant.{IsValid, create-IsValid, unplaced}
use sfproxy.Pool.Open.{Handed, reuse-IsValid, occ-set_insert_pos}
use sfproxy.Pool.Evict.{Evicts, evict-Evicts}

-- No more clients than the bound.
abbrev pub IsBounded : Pool → Type 0
IsBounded p = ltb_ℤ p.max_client (pos (size p)) ≡ false

-- A client that is handed out is lent, or it was revoked by the same call. None is handed out only
-- by a pool that was at its bound.
abbrev pub Granted : Pool → Pool → Option ℕ → Type 0
Granted p q none = ltb_ℤ (pos (size p)) p.max_client ≡ false
Granted p q (some a) = (0 < occ a q.lent) ⊎ ((occ a q.lent ≡ 0) × (occ a q.to_destrory ≡ 1))

abbrev Opened : ℕ → ℕ → Pool → Type 0
Opened fresh now p =
    (q : Pool) × (o : Option ℕ) × (open_locked fresh now p ≡ some (q, o))
    × IsValid q
    × IsBounded q
    × Granted p q o

size-create : (fresh : ℕ) (p : Pool) → occ fresh p.lent ≡ 0 → size (create fresh p) ≡ size p + 1
unfolding create size
size-create fresh p h = omega (arith, length-set_insert fresh p.lent h)

pub create_granted : (fresh : ℕ) (p : Pool) → 0 < occ fresh (create fresh p).lent
unfolding create
create_granted fresh p = occ-set_insert_pos fresh p.lent

create_max : (fresh : ℕ) (p : Pool) → (create fresh p).max_client ≡ p.max_client
unfolding create
create_max fresh p = refl

above_mono :
    (m n : ℕ) (z z' : ℤ) → m ≤ n → z' ≡ z → ltb_ℤ (pos m) z' ≡ false → ltb_ℤ (pos n) z ≡ false
above_mono m n z z' h e k = ground (arith, rw e at k)

pub below_mono :
    (m n : ℕ) (z z' : ℤ) → m ≤ n → z' ≡ z → ltb_ℤ z (pos n) ≡ false → ltb_ℤ z' (pos m) ≡ false
below_mono m n z z' h e k = rw e (ground arith)

unlocked : (n : ℕ) (b : Bool) → n ≡ 0 → (n == 0 && b) ≡ false → b ≡ false
unlocked n b e t = ground arith

full_none :
    (p : Pool)
    → p.idle ≡ []
    → (length p.idle == 0 && ltb_ℤ (pos (size p)) p.max_client) ≡ false
    → ltb_ℤ (pos (size p)) p.max_client ≡ false
full_none p e t = unlocked (length p.idle) (ltb_ℤ (pos (size p)) p.max_client) (ap length e) t

Granted-none :
    (p p1 q : Pool)
    → size p1 ≤ size p
    → p1.max_client ≡ p.max_client
    → p1.idle ≡ []
    → (length p1.idle == 0 && ltb_ℤ (pos (size p1)) p1.max_client) ≡ false
    → Granted p q none
Granted-none p p1 q s m h t =
    above_mono (size p1) (size p) p.max_client p1.max_client s m (full_none p1 h t)

evicted-Granted :
    (now : ℕ) (p p1 q : Pool) (o : Option ℕ)
    → Evicts now p1 q
    → size p1 ≤ size p
    → p1.max_client ≡ p.max_client
    → Handed p1 o
    → (is_none o && (length p1.idle == 0 && ltb_ℤ (pos (size p1)) p1.max_client)) ≡ false
    → Granted p q o
evicted-Granted now p p1 q none e s m h t = Granted-none p p1 q s m h t
evicted-Granted now p p1 q (some a) e s m (c, there, up, lent) t = elim (e a) [
  | inl (_, l, d, i) ↦ inr (l, d)
  | inr (_, u) ↦ inl (omega (arith, u.0))
]

kept-Granted :
    (p p1 : Pool) (o : Option ℕ)
    → size p1 ≤ size p
    → p1.max_client ≡ p.max_client
    → Handed p1 o
    → (is_none o && (length p1.idle == 0 && ltb_ℤ (pos (size p1)) p1.max_client)) ≡ false
    → Granted p p1 o
kept-Granted p p1 none s m h t = Granted-none p p1 p1 s m h t
kept-Granted p p1 (some a) s m (c, there, up, lent) t = inl lent

module _ (fresh now : ℕ) (p p1 : Pool) (o : Option ℕ) (found : reuse p.idle p ≡ some (p1, o)) where
  pub open_creates :
      (is_none o && (length p1.idle == 0 && ltb_ℤ (pos (size p1)) p1.max_client)) ≡ true
      → open_locked fresh now p ≡ some (create fresh p1, some fresh)
  unfolding open_locked
  open_creates t = rw found (rw t)

  pub open_evicts :
      {q : Pool}
      → (is_none o && (length p1.idle == 0 && ltb_ℤ (pos (size p1)) p1.max_client)) ≡ false
      → eq_ℤ (pos (size p1)) p1.max_client ≡ true
      → evict (suc (length p1.lent)) now p1 ≡ some q
      → open_locked fresh now p ≡ some (q, o)
  unfolding open_locked
  open_evicts t f e = rw found (rw t (rw f (rw e)))

  pub open_keeps :
      (is_none o && (length p1.idle == 0 && ltb_ℤ (pos (size p1)) p1.max_client)) ≡ false
      → eq_ℤ (pos (size p1)) p1.max_client ≡ false
      → open_locked fresh now p ≡ some (p1, o)
  unfolding open_locked
  open_keeps t f = rw found (rw t (rw f))

pub create-IsBounded :
    (fresh : ℕ) (p : Pool) (o : Option ℕ)
    → occ fresh p.lent ≡ 0
    → (is_none o && (length p.idle == 0 && ltb_ℤ (pos (size p)) p.max_client)) ≡ true
    → IsBounded (create fresh p)
unfolding size
create-IsBounded fresh p o h t = rw (create_max fresh p, size-create fresh p h) (ground arith)

-- In a valid pool within its bound, where `new` gives an address at which no client lives, `open`
-- reads no freed client under its lock, its passes end, and the pool is valid and within its bound
-- afterwards. A client that it hands out is lent, unless the same call has revoked it; it hands out
-- none only if the pool was at its bound before.
pub open_locked-IsValid :
    (fresh now : ℕ) (p : Pool) → IsValid p → p.heap fresh ≡ none → IsBounded p → Opened fresh now p
open_locked-IsValid fresh now p v f b =
    let (p1, o, found, w, handed, s) = reuse-IsValid p.idle p refl v in
    let free = s.free_kept fresh f in
    elim (Bool-cases (is_none o && (length p1.idle == 0 && ltb_ℤ (pos (size p1)) p1.max_client))) [
      | inl t ↦ (
        create fresh p1,
        some fresh,
        open_creates fresh now p p1 o found t,
        create-IsValid p1 fresh w free,
        create-IsBounded fresh p1 o (unplaced p1 fresh (w fresh) free).0 t,
        inl (create_granted fresh p1),
      )
      | inr t ↦ elim (Bool-cases (eq_ℤ (pos (size p1)) p1.max_client)) [
        | inl full ↦
            let (q, e, x, all, m, i, l) =
              evict-Evicts (suc (length p1.lent)) now p1 w (omega arith) in
            let smaller : size q ≤ size p1 = unfold size in (rw i (omega arith)) in
            (
              q,
              o,
              open_evicts fresh now p p1 o found t full e,
              x,
              below_mono (size q) (size p) p.max_client q.max_client (omega (arith, s.smaller))
                  (m ∙ s.same_max) b,
              evicted-Granted now p p1 q o all s.smaller s.same_max handed t,
            )
        | inr room ↦ (
          p1,
          o,
          open_keeps fresh now p p1 o found t room,
          w,
          below_mono (size p1) (size p) p.max_client p1.max_client s.smaller s.same_max b,
          kept-Granted p p1 o s.smaller s.same_max handed t,
        )
      ]
    ]
