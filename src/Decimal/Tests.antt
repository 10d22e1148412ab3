-- ===== src/Decimal/Tests.antt =====
-- Decimal text at concrete numbers.
use sfproxy.Prelude.{◌≡◌, refl, codes, pos, negsuc}
use sfproxy.Decimal.{show_ℤ, atol}
use sfproxy.Decimal.Roundtrip.{atol-show_ℤ}

text_of_port : show_ℤ (negsuc 41) ≡ codes "-42"
unfolding show_ℤ
text_of_port = refl

blanks_and_rest : atol (codes "  +12x") ≡ pos 12
unfolding atol
blanks_and_rest = refl

atol-show_ℤ_example : atol (show_ℤ (negsuc 41)) ≡ negsuc 41
atol-show_ℤ_example = atol-show_ℤ (negsuc 41)
