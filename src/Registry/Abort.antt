-- ===== src/Registry/Abort.antt =====
-- When the reading of core/Registry.cpp ends the process: rapidjson asserts the kinds of values.
use sfproxy.Prelude.{
  ℕ, ◌≡◌, ◌⊎◌, inl, inr, true, false, none, some, List, [], ◌∷◌, ◌++◌, Option-cases, Str, codes,
}
use sfproxy.Json.{Rapidjson}
use sfproxy.Registry.{unserialize_element, unserialize_elements, unserialize}

module _ (J : Rapidjson) where
  open J use {Value, parse, is_array, is_object, is_string, elements, member}

  elements_abort :
      (now : ℕ) (pre post : List Value) (v : Value)
      → unserialize_element J now v ≡ none
      → unserialize_elements J now (pre ++ (v ∷ post)) ≡ none
  unfolding unserialize_elements
  elements_abort now [] post v h = rw h
  elements_abort now (x ∷ pre) post v h = elim (Option-cases (unserialize_element J now x)) [
    | inl e ↦ rw e
    | inr (r, e) ↦ rw (e, elements_abort now pre post v h)
  ]

  -- An element that is no object, or that has the three members but a name that is no text.
  abbrev pub Offends : Value → Type 0
  Offends v =
      (is_object v ≡ false)
      ⊎ ((n h p : Value) × (is_object v ≡ true)
          × (member v (codes "name") ≡ some n)
          × (member v (codes "host") ≡ some h)
          × (member v (codes "port") ≡ some p)
          × (is_string n ≡ false))

  element_abort : (now : ℕ) (v : Value) → Offends v → unserialize_element J now v ≡ none
  unfolding unserialize_element
  element_abort now v (inl o) = rw o
  element_abort now v (inr (n, h, p, o, en, eh, ep, s)) = rw (o, en, eh, ep, s)

  -- One element that is no object, or a complete one whose name is no text, anywhere in an array
  -- that parses, makes `unserialize` fail an assertion, whatever the other elements are.
  pub unserialize_abort :
      (now : ℕ) (s : Str) (pre post : List Value) (v : Value)
      → is_array (parse s) ≡ true
      → elements (parse s) ≡ pre ++ (v ∷ post)
      → Offends v
      → unserialize J now s ≡ none
  unfolding unserialize
  unserialize_abort now s pre post v a e o =
      rw (a, e) (elements_abort now pre post v (element_abort now v o))
