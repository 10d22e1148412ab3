-- ===== src/Decimal.antt =====
-- Decimal text: `ostream << int`, and `atol` / `atoi` of the C library.
pub mod Roundtrip
pub mod Tests
use sfproxy.Prelude.{
  ℕ, zero, suc, ◌+◌, ◌-◌, ◌*◌, ◌/◌, ◌%◌, ◌^◌, ◌≤◌, ◌<◌, ◌≡◌, refl, sym, ap, ◌∙◌, subst, ◌≢◌, ◌↔◌,
  ◌⊎◌, inl, inr, Bool, true, false, ◌&&◌, ◌||◌, not, Option, none, some, List, [], ◌∷◌, ◌++◌, map,
  arith, ltb, leb, ◌==◌, if◌then◌else◌, ltb→lt, lt→ltb, ltb-false, ==_iff, Bool-cases, Option-cases,
  length, length-append, keep_if, length-keep_if-le, keep_if-append, All, All-append, All-keep_if,
  Str, codes, str_eq, str_lt, str_eq_iff, str_eq_refl, ℤ, pos, negsuc, pos_part, neg_part, sub_ℕ,
  ◌+ℤ◌, ltb_ℤ, eq_ℤ,
}

-- The digits of `n` in front of `acc`; `n + 1` rounds are enough.
unfoldable pub digits_onto : ℕ → ℕ → Str → Str
digits_onto zero n acc = acc
digits_onto (suc f) n acc =
    let rest = digits_onto f (n / 10) ((b'0' + n % 10) ∷ acc) in
    if ltb n 10 then (b'0' + n) ∷ acc else rest

unfoldable pub show_ℕ : ℕ → Str
unfolding digits_onto
show_ℕ n = digits_onto (suc n) n []

unfoldable pub show_ℤ : ℤ → Str
unfolding show_ℕ
show_ℤ (pos n) = show_ℕ n
show_ℤ (negsuc n) = b'-' ∷ show_ℕ (suc n)

unfoldable pub is_digit : ℕ → Bool
is_digit c = leb b'0' c && leb c b'9'

-- `isspace` in the C locale: the blank, and 9 to 13.
unfoldable pub is_space : ℕ → Bool
is_space c = (c == b' ') || (leb 9 c && leb c 13)

-- The digits up to the first other byte, as a number.
unfoldable pub read_digits : ℕ → Str → ℕ
unfolding is_digit
read_digits acc [] = acc
read_digits acc (c ∷ s) = elim (is_digit c) [
  | true ↦ read_digits (acc * 10 + (c - b'0')) s
  | false ↦ acc
]

-- The integer -n.
abbrev pub negate : ℕ → ℤ
negate n = sub_ℕ 0 n

unfoldable pub read_signed : Str → ℤ
unfolding read_digits
read_signed [] = pos 0
read_signed (c ∷ s) =
    if c == b'-'
    then negate (read_digits 0 s)
    else if c == b'+'
    then pos (read_digits 0 s)
    else pos (read_digits 0 (c ∷ s))

-- Leading blanks, an optional sign, digits. (Out of the range of `long` the C library leaves the
-- result open; here it is the number itself.)
unfoldable pub atol : Str → ℤ
unfolding is_space read_signed
atol [] = pos 0
atol (c ∷ s) = elim (is_space c) [ true ↦ atol s | false ↦ read_signed (c ∷ s) ]
