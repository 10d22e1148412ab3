-- ===== src/Registry/Text.antt =====
-- The text of a list of instances: the loop of `serialize` against its plain form.
use sfproxy.Prelude.{
  ℕ, ◌<◌, ◌≡◌, refl, ap, ◌∙◌, List, [], ◌∷◌, ◌++◌, map, arith, lt→ltb, length, length-append, Str,
  codes,
}
use mathlib.Core.List.{append_assoc}
use sfproxy.Registry.{Registry, serialize, serialize_loop, serialize_all}

-- The texts with a separator between any two.
unfoldable pub join : Str → List Str → Str
join sep [] = []
join sep (s ∷ []) = s
join sep (s ∷ t ∷ ts) = s ++ (sep ++ join sep (t ∷ ts))

length-serialize : (t : ℕ) (r : Registry) → 2 < length (serialize t r)
unfolding serialize
length-serialize t r = omega arith

serialize_step :
    (t : ℕ) (ret : Str) (r : Registry) (rs : List Registry)
    → 2 < length ret
    → serialize_loop t ret (r ∷ rs) ≡ serialize_loop t (ret ++ (codes ",\n" ++ serialize t r)) rs
unfolding serialize_loop
serialize_step t ret r rs h =
    rw (lt→ltb 2 (length ret) h)
      (ap (λ s. serialize_loop t s rs) (append_assoc ret (codes ",\n") _))

-- After the first instance each one brings its separator.
later :
    (t : ℕ) (ret : Str) (r : Registry) (rs : List Registry)
    → 2 < length ret
    → serialize_loop t ret (r ∷ rs)
      ≡ ret ++ (codes ",\n" ++ join (codes ",\n") (map (serialize t) (r ∷ rs)))
later t ret r [] h = serialize_step t ret r [] h ∙ unfold serialize_loop join in refl
later t ret r (r' ∷ rs) h =
    serialize_step t ret r (r' ∷ rs) h
    ∙ later t (ret ++ (codes ",\n" ++ serialize t r)) r' rs
        (omega (arith, length-append ret (codes ",\n" ++ serialize t r)))
    ∙ unfold join in (append_assoc ret (codes ",\n" ++ serialize t r) _)

-- The text of a list is a bracket, the texts of the instances in order with a comma and a line end
-- between any two, and a bracket, although the loop tests the length of what it has so far.
pub serialize_all-join :
    (t : ℕ) (v : List Registry)
    → serialize_all t v ≡ codes "[" ++ (join (codes ",\n") (map (serialize t) v) ++ codes "]")
unfolding serialize_all serialize_loop join
serialize_all-join t [] = refl
serialize_all-join t (r ∷ []) = refl
serialize_all-join t (r ∷ r' ∷ rs) =
    ap (λ s. s ++ codes "]")
      (later t (codes "[" ++ serialize t r) r' rs (omega (arith, length-serialize t r)))
