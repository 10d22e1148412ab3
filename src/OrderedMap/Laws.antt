-- ===== src/OrderedMap/Laws.antt =====
-- What a lookup finds after each operation. No order of the entries is needed for these.
use mathlib.Core.Option
use sfproxy.Prelude.{
  ◌+◌, ◌≡◌, refl, inl, inr, [], ◌∷◌, none, some, Str, str_eq, str_eq_iff, arith, if◌then◌else◌,
  length, Option-cases,
}
use sfproxy.OrderedMap.{Map, find, place, insert, erase, modify, map_values}

module _ {ℓ} {V : Type ℓ} where
  find-place :
      (k j : Str) (v : V) (m : Map V)
      → find k m ≡ none
      → find j (place k v m) ≡ (if str_eq k j then some v else find j m)
  unfolding find place
  find-place k j v [] h = refl
  find-place k j v ((i, w) ∷ m) h =
      ground (arith, str_eq_iff i k, str_eq_iff i j, str_eq_iff k j, find-place k j v m)

  pub find-insert :
      (k j : Str) (v : V) (m : Map V)
      → find j (insert k v m) ≡ (if str_eq k j then some (Option.get_or (find k m) v) else find j m)
  unfolding insert
  find-insert k j v m = elim (Option-cases (find k m)) [
    | inl e ↦ rw (e, insert) (find-place k j v m e)
    | inr (w, e) ↦ rw (e, insert) (ground (arith, str_eq_iff k j))
  ]

  pub find-erase :
      (k j : Str) (m : Map V) → find j (erase k m) ≡ (if str_eq k j then none else find j m)
  unfolding find erase
  find-erase k j [] = ground arith
  find-erase k j ((i, w) ∷ m) =
      ground (arith, str_eq_iff i k, str_eq_iff i j, str_eq_iff k j, find-erase k j m)

  pub find-modify :
      (k j : Str) (f : V → V) (m : Map V)
      → find j (modify k f m) ≡ (if str_eq k j then Option.map f (find j m) else find j m)
  unfolding find modify
  find-modify k j f [] = ground arith
  find-modify k j f ((i, w) ∷ m) =
      ground (arith, str_eq_iff i k, str_eq_iff i j, str_eq_iff k j, find-modify k j f m)

  pub find-map_values :
      (j : Str) (f : V → V) (m : Map V) → find j (map_values f m) ≡ Option.map f (find j m)
  unfolding find map_values
  find-map_values j f [] = refl
  find-map_values j f ((i, w) ∷ m) = ground (arith, find-map_values j f m)

  length-place : (k : Str) (v : V) (m : Map V) → length (place k v m) ≡ length m + 1
  unfolding place
  length-place k v [] = omega arith
  length-place k v ((i, w) ∷ m) = ground (arith, length-place k v m)

  pub length-insert :
      (k : Str) (v : V) (m : Map V) → find k m ≡ none → length (insert k v m) ≡ length m + 1
  unfolding insert
  length-insert k v m e = rw (e, insert) (length-place k v m)

  pub insert_present : (k : Str) (v w : V) (m : Map V) → find k m ≡ some w → insert k v m ≡ m
  unfolding insert
  insert_present k v w m e = rw (e, insert)

  pub length-modify : (k : Str) (f : V → V) (m : Map V) → length (modify k f m) ≡ length m
  unfolding modify
  length-modify k f [] = refl
  length-modify k f ((i, w) ∷ m) = ground (arith, length-modify k f m)

  pub length-map_values : (f : V → V) (m : Map V) → length (map_values f m) ≡ length m
  unfolding map_values
  length-map_values f [] = refl
  length-map_values f ((i, w) ∷ m) = ground (arith, length-map_values f m)
