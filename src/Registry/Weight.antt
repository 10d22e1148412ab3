-- ===== src/Registry/Weight.antt =====
-- The slow start of core/Registry.cpp: how the weight of an instance follows its age.
use sfproxy.Prelude.{
  ℕ, ◌-◌, ◌*◌, ◌^◌, ◌≤◌, ◌<◌, ◌≡◌, ◌↔◌, ◌+◌, ◌⊎◌, inl, inr, leb, Bool-cases, arith, ℤ, pos, negsuc,
}
use sfproxy.Registry.{Registry, elapse, weight_of, weight}

elapse_past : (t c : ℕ) → c ≤ t → t < 2 ^ 63 → elapse t c ≡ pos (t - c)
unfolding elapse
elapse_past t c h k = ground arith

elapse_future : (t c : ℕ) → t < c → c < 2 ^ 63 → elapse t c ≡ negsuc (c - t - 1)
unfolding elapse
elapse_future t c h k = ground arith

square_mono : (a b : ℕ) → a ≤ b → a * a ≤ b * b
square_mono a b h = grind arith

weight_of_bounds : (e : ℤ) → (1200 ≤ weight_of e) × (weight_of e ≤ 3600)
unfolding weight_of
weight_of_bounds (pos e) = ground (arith, square_mono e 293)
weight_of_bounds (negsuc e) = omega arith

weight_of_mono : (a b : ℕ) → 0 < a → a ≤ b → weight_of (pos a) ≤ weight_of (pos b)
unfolding weight_of
weight_of_mono a b h k = ground (arith, square_mono a b, square_mono a 293)

full_iff : (e : ℕ) → 0 < e → (weight_of (pos e) ≡ 3600) ↔ (294 ≤ e)
unfolding weight_of
full_iff e h = (λ p. ground (arith, square_mono e 293), λ p. ground arith)

full_iff_past :
    (t : ℕ) (r : Registry) → r.ctime < t → t < 2 ^ 63 → (weight t r ≡ 3600) ↔ (294 ≤ t - r.ctime)
unfolding weight
full_iff_past t r h k =
    rw (elapse_past t r.ctime (omega arith) k) (full_iff (t - r.ctime) (omega arith))

-- The weight lies between 1200 and 3600 at every clock reading and registration time.
pub weight_bounds : (t : ℕ) (r : Registry) → (1200 ≤ weight t r) × (weight t r ≤ 3600)
unfolding weight
weight_bounds t r = weight_of_bounds (elapse t r.ctime)

-- From the first second of its life on, an instance never loses weight as the clock goes on, as
-- long as the clock stays below 2^63 seconds.
pub weight_mono :
    (t u : ℕ) (r : Registry) → r.ctime < t → t ≤ u → u < 2 ^ 63 → weight t r ≤ weight u r
unfolding weight
weight_mono t u r h k l =
    rw (elapse_past t r.ctime (omega arith) (omega arith), elapse_past u r.ctime (omega arith) l)
      (weight_of_mono (t - r.ctime) (u - r.ctime) (omega arith) (omega arith))

pub weight_future : (t : ℕ) (r : Registry) → t ≤ r.ctime → r.ctime < 2 ^ 63 → weight t r ≡ 3600
unfolding weight weight_of elapse
weight_future t r h k = ground arith

-- With the clock and the registration time below 2^63, the weight is the full weight exactly from
-- 294 seconds after the registration on, and also at the second of the registration and before it.
pub weight-eq-full_iff :
    (t : ℕ) (r : Registry)
    → t < 2 ^ 63
    → r.ctime < 2 ^ 63
    → (weight t r ≡ 3600) ↔ ((t ≤ r.ctime) ⊎ (r.ctime + 294 ≤ t))
weight-eq-full_iff t r k l = elim (Bool-cases (leb t r.ctime)) [
  | inl early ↦ ((λ p. inl (ground arith)), λ p. weight_future t r (ground arith) l)
  | inr late ↦
      let aged = full_iff_past t r (ground arith) k in
      ((λ p. inr (omega (arith, aged.0 p))), λ p. aged.1 (ground arith))
]
