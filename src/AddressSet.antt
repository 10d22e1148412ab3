-- ===== src/AddressSet.antt =====
-- std::set<ClientBase*>: addresses in rising order.
use sfproxy.Prelude.{
  ℕ, ◌+◌, ◌≤◌, ◌<◌, ◌≡◌, subst, inl, inr, false, not, List, [], ◌∷◌, ◌++◌, arith, ltb, ◌==◌,
  if◌then◌else◌, ==_iff, Bool-cases, length, keep_if, length-keep_if-le, All,
}

unfoldable pub set_insert : ℕ → List ℕ → List ℕ
set_insert a [] = a ∷ []
set_insert a (b ∷ xs) =
    if ltb a b then a ∷ b ∷ xs else if a == b then b ∷ xs else b ∷ set_insert a xs

unfoldable pub set_erase : ℕ → List ℕ → List ℕ
set_erase a xs = keep_if (λ b. not (b == a)) xs

-- How often an address stands in a list.
unfoldable pub occ : ℕ → List ℕ → ℕ
occ a [] = 0
occ a (b ∷ xs) = (if b == a then 1 else 0) + occ a xs

pub occ-append : (a : ℕ) (xs ys : List ℕ) → occ a (xs ++ ys) ≡ occ a xs + occ a ys
unfolding occ
occ-append a [] ys = omega arith
occ-append a (x ∷ xs) ys = omega (arith, occ-append a xs ys)

pub occ_snoc :
    (a b : ℕ) (xs : List ℕ) → occ a (xs ++ (b ∷ [])) ≡ occ a xs + (if b == a then 1 else 0)
unfolding occ
occ_snoc a b xs = ground (arith, occ-append a xs (b ∷ []))

-- A set with an address put in, where the set lacks it.
pub occ-set_insert :
    (a b : ℕ) (xs : List ℕ)
    → occ b xs ≡ 0
    → occ a (set_insert b xs) ≡ occ a xs + (if b == a then 1 else 0)
unfolding occ set_insert
occ-set_insert a b [] h = ground arith
occ-set_insert a b (x ∷ xs) h = ground (arith, occ-set_insert a b xs)

pub occ-set_insert_ne :
    (a b : ℕ) (xs : List ℕ) → (b == a) ≡ false → occ a (set_insert b xs) ≡ occ a xs
unfolding occ set_insert
occ-set_insert_ne a b [] h = ground arith
occ-set_insert_ne a b (x ∷ xs) h = ground (arith, occ-set_insert_ne a b xs)

pub occ-set_erase :
    (a b : ℕ) (xs : List ℕ) → occ a (set_erase b xs) ≡ (if b == a then 0 else occ a xs)
unfolding occ set_erase
occ-set_erase a b [] = ground arith
occ-set_erase a b (x ∷ xs) = ground (arith, occ-set_erase a b xs)

pub length-set_erase : (a : ℕ) (xs : List ℕ) → 0 < occ a xs → length (set_erase a xs) < length xs
unfolding occ set_erase
length-set_erase a [] h = absurd (omega arith)
length-set_erase a (x ∷ xs) h =
    ground (arith, length-set_erase a xs, length-keep_if-le (λ b. not (b == a)) xs)

-- Every member of a list stands in it.
pub members : (xs ys : List ℕ) → ((a : ℕ) → occ a xs ≤ occ a ys) → All (λ x. 0 < occ x ys) xs
unfolding occ
members [] ys h = tt
members (x ∷ xs) ys h = (ground (arith, h x), members xs ys (λ a. ground (arith, h a)))

-- What holds of all members holds of an address that stands in the list.
pub All-at {ℓ} : (P : ℕ → Type ℓ) (a : ℕ) (xs : List ℕ) → All P xs → 0 < occ a xs → P a
unfolding occ
All-at P a [] h k = absurd (omega arith)
All-at P a (x ∷ xs) h k = elim (Bool-cases (x == a)) [
  | inl e ↦ subst P ((==_iff x a).0 e) h.0
  | inr e ↦ All-at P a xs h.1 (ground arith)
]

pub length-set_insert :
    (a : ℕ) (xs : List ℕ) → occ a xs ≡ 0 → length (set_insert a xs) ≡ length xs + 1
unfolding occ set_insert
length-set_insert a [] h = omega arith
length-set_insert a (x ∷ xs) h = ground (arith, length-set_insert a xs)
