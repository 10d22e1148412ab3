-- ===== src/OrderedMap.antt =====
-- std::map<string, V> as the code uses it: entries in the order of their keys, `find`, `insert`
-- (which leaves a present key alone), `erase` by key, and a write through an iterator.
pub mod Laws
pub mod Order
use sfproxy.Prelude.{
  ℕ, Bool, true, false, ◌||◌, List, [], ◌∷◌, map, Option, none, some, Str, str_eq, str_lt,
  if◌then◌else◌,
}

abbrev pub Map {ℓ} : Type ℓ → Type ℓ
Map V = List (Str × V)

module _ {ℓ} {V : Type ℓ} where
  unfoldable pub find : Str → Map V → Option V
  find k [] = none
  find k ((j, v) ∷ m) = if str_eq j k then some v else find k m

  -- Where an absent key goes.
  unfoldable pub place : Str → V → Map V → Map V
  place k v [] = (k, v) ∷ []
  place k v ((j, w) ∷ m) = if str_lt k j then (k, v) ∷ (j, w) ∷ m else (j, w) ∷ place k v m

  unfoldable pub insert : Str → V → Map V → Map V
  insert k v m = elim (find k m) [ none ↦ place k v m | some _ ↦ m ]

  unfoldable pub erase : Str → Map V → Map V
  erase k [] = []
  erase k ((j, v) ∷ m) = if str_eq j k then erase k m else (j, v) ∷ erase k m

  -- A write to the value that an iterator stands at.
  unfoldable pub modify : Str → (V → V) → Map V → Map V
  modify k f [] = []
  modify k f ((j, v) ∷ m) = if str_eq j k then (j, f v) ∷ modify k f m else (j, v) ∷ modify k f m

  abbrev pub keys : Map V → List Str
  keys = map (λ e. e.0)

  -- The values, as an iteration meets them.
  abbrev pub values : Map V → List V
  values = map (λ e. e.1)

  -- A write to every value, by an iteration.
  unfoldable pub map_values : (V → V) → Map V → Map V
  map_values f [] = []
  map_values f ((j, v) ∷ m) = (j, f v) ∷ map_values f m
