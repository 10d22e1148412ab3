-- ===== src/OrderedMap/Order.antt =====
-- The order of the entries by their keys.
use sfproxy.Prelude.{
  ◌≡◌, refl, inl, inr, true, [], ◌∷◌, none, Str, str_eq_iff, str_lt, str_lt_trans, str_lt_total,
  str_lt_irrefl, arith, Option-cases, Bool-cases,
}
use sfproxy.OrderedMap.{Map, find, place, insert, erase, modify}

module _ {ℓ} {V : Type ℓ} where
  -- Every key of the map comes after `k`.
  abbrev pub After : Str → Map V → Type 0
  After k [] = Unit
  After k ((j, v) ∷ m) = (str_lt k j ≡ true) × After k m

  abbrev pub IsSorted : Map V → Type 0
  IsSorted [] = Unit
  IsSorted ((j, v) ∷ m) = After j m × IsSorted m

  After-trans : (i k : Str) (m : Map V) → str_lt i k ≡ true → After k m → After i m
  After-trans i k [] h a = tt
  After-trans i k ((j, v) ∷ m) h a = (str_lt_trans i k j h a.0, After-trans i k m h a.1)

  -- A key that precedes all others is not among them.
  pub find-After : (k : Str) (m : Map V) → After k m → find k m ≡ none
  unfolding find
  find-After k [] a = refl
  find-After k ((j, v) ∷ m) a = ground (arith, str_eq_iff j k, str_lt_irrefl k, find-After k m a.1)

  place-After :
      (i k : Str) (v : V) (m : Map V) → str_lt i k ≡ true → After i m → After i (place k v m)
  unfolding place
  place-After i k v [] h a = (h, tt)
  place-After i k v ((j, w) ∷ m) h a = ground (arith, place-After i k v m h a.1)

  place-IsSorted :
      (k : Str) (v : V) (m : Map V) → find k m ≡ none → IsSorted m → IsSorted (place k v m)
  unfolding place find
  place-IsSorted k v [] h s = (tt, tt)
  place-IsSorted k v ((j, w) ∷ m) h s = elim (Bool-cases (str_lt k j)) [
    | inl e ↦ rw e ((e, After-trans k j m e s.0), s)
    | inr e ↦ rw e (
      place-After j k v m (str_lt_total k j (ground (arith, str_eq_iff j k, str_eq_iff k j)) e) s.0,
      place-IsSorted k v m (ground arith) s.1,
    )
  ]

  pub insert-IsSorted : (k : Str) (v : V) (m : Map V) → IsSorted m → IsSorted (insert k v m)
  unfolding insert
  insert-IsSorted k v m s = elim (Option-cases (find k m)) [
    | inl e ↦ rw (e, insert) (place-IsSorted k v m e s)
    | inr (w, e) ↦ rw (e, insert) s
  ]

  erase-After : (i k : Str) (m : Map V) → After i m → After i (erase k m)
  unfolding erase
  erase-After i k [] a = tt
  erase-After i k ((j, v) ∷ m) a = ground (arith, erase-After i k m a.1)

  pub erase-IsSorted : (k : Str) (m : Map V) → IsSorted m → IsSorted (erase k m)
  unfolding erase
  erase-IsSorted k [] s = tt
  erase-IsSorted k ((j, v) ∷ m) s = ground (arith, erase-IsSorted k m s.1, erase-After j k m s.0)

  modify-After : (i k : Str) (f : V → V) (m : Map V) → After i m → After i (modify k f m)
  unfolding modify
  modify-After i k f [] a = tt
  modify-After i k f ((j, v) ∷ m) a = ground (arith, modify-After i k f m a.1)

  pub modify-IsSorted : (k : Str) (f : V → V) (m : Map V) → IsSorted m → IsSorted (modify k f m)
  unfolding modify
  modify-IsSorted k f [] s = tt
  modify-IsSorted k f ((j, v) ∷ m) s =
      ground (arith, modify-IsSorted k f m s.1, modify-After j k f m s.0)
