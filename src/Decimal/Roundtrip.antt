-- ===== src/Decimal/Roundtrip.antt =====
-- Reading back what was printed.
use sfproxy.Prelude.{
  ℕ, zero, suc, ◌+◌, ◌/◌, ◌%◌, ◌≤◌, ◌<◌, ◌≡◌, refl, sym, ap, ◌∙◌, inl, inr, [], ◌∷◌, arith, ltb,
  ltb→lt, Bool-cases, Str, ℤ, pos, negsuc,
}
use sfproxy.Decimal.{digits_onto, show_ℕ, show_ℤ, is_space, read_digits, read_signed, atol, negate}

read_digits-digits_onto :
    (f n : ℕ) (s : Str) → n < f → read_digits 0 (digits_onto f n s) ≡ read_digits n s
unfolding digits_onto read_digits
read_digits-digits_onto zero n s h = elim h [ ]
read_digits-digits_onto (suc f) n s h = elim (Bool-cases (ltb n 10)) [
  | inl small ↦ ground arith
  | inr large ↦
      rw large
        (read_digits-digits_onto f (n / 10) ((b'0' + n % 10) ∷ s) (ground arith) ∙ ground arith)
]

negate-suc : (n : ℕ) → negate (suc n) ≡ negsuc n
negate-suc n = ground arith

pub read_digits-show_ℕ : (n : ℕ) → read_digits 0 (show_ℕ n) ≡ n
unfolding show_ℕ read_digits
read_digits-show_ℕ n = read_digits-digits_onto (suc n) n [] (omega arith)

-- The first byte of a printed number is a digit.
digits_onto-head :
    (f n : ℕ) (s : Str)
    → n < f
    → (c : ℕ) × (r : Str) × (digits_onto f n s ≡ c ∷ r) × (b'0' ≤ c) × (c ≤ b'9')
unfolding digits_onto
digits_onto-head zero n s h = elim h [ ]
digits_onto-head (suc f) n s h = elim (Bool-cases (ltb n 10)) [
  | inl small ↦ (b'0' + n, s, rw small, omega arith, omega (arith, ltb→lt n 10))
  | inr large ↦ rw large (digits_onto-head f (n / 10) ((b'0' + n % 10) ∷ s) (ground arith))
]

show_ℕ-head : (n : ℕ) → (c : ℕ) × (r : Str) × (show_ℕ n ≡ c ∷ r) × (b'0' ≤ c) × (c ≤ b'9')
unfolding show_ℕ
show_ℕ-head n = digits_onto-head (suc n) n [] (omega arith)

atol_digit : (c : ℕ) (r : Str) → b'0' ≤ c → c ≤ b'9' → atol (c ∷ r) ≡ pos (read_digits 0 (c ∷ r))
unfolding atol is_space read_signed
atol_digit c r lo hi = ground arith

pub atol-show_ℕ : (n : ℕ) → atol (show_ℕ n) ≡ pos n
atol-show_ℕ n =
    let (c, r, e, lo, hi) = show_ℕ-head n in
    ap atol e
    ∙ (atol_digit c r lo hi
        ∙ ap (λ s. pos (read_digits 0 s)) (sym e)
        ∙ ap pos (read_digits-show_ℕ n))

atol_minus : (s : Str) → atol (b'-' ∷ s) ≡ negate (read_digits 0 s)
unfolding atol is_space read_signed
atol_minus s = refl

-- Every integer is read back from its decimal text.
pub atol-show_ℤ : (z : ℤ) → atol (show_ℤ z) ≡ z
unfolding show_ℤ
atol-show_ℤ (pos n) = atol-show_ℕ n
atol-show_ℤ (negsuc n) =
    atol_minus (show_ℕ (suc n)) ∙ ap negate (read_digits-show_ℕ (suc n)) ∙ negate-suc n
