-- ===== src/ZkClient/Handover.antt =====
-- The watches of a client in a state bag, while core/ZkClient.cpp takes them over.
use sfproxy.Prelude.{
  ℕ, ◌≡◌, refl, ◌∙◌, subst, ◌⊎◌, inl, inr, Bool, true, false, ◌||◌, some, List, [], ◌∷◌, arith,
  ◌==◌, if◌then◌else◌, Bool-cases, All, Str, str_eq, str_eq_iff, str_eq_refl,
}
use sfproxy.OrderedMap.{find}
use sfproxy.OrderedMap.Laws.{find-modify}
use sfproxy.StateBag.{StateBag, ZkState, set_client_id, replace_client_id_of}
use sfproxy.ZkClient.Connect.{keys_of}
use sfproxy.Prelude.{either}
use sfproxy.ZkClient.Healthy.{Tends, if_true}

-- The watch is there; it is the client's.
abbrev pub IsWatched : StateBag → Str → Type 0
IsWatched b k = (s : ZkState) × (find k b ≡ some s)

abbrev pub IsOwned : ℕ → StateBag → Str → Type 0
IsOwned id b k = (s : ZkState) × (find k b ≡ some s) × (s.client_id ≡ id)

pub Tends-IsWatched :
    (id : ℕ) (b b' : StateBag) (ks : List Str)
    → Tends id b b'
    → All (IsWatched b) ks
    → All (IsWatched b') ks
Tends-IsWatched id b b' [] t h = tt
Tends-IsWatched id b b' (k ∷ ks) t ((s, e), h) =
    let (u, f, _) = t k s e in ((u, f), Tends-IsWatched id b b' ks t h)

pub Tends-IsOwned :
    (id : ℕ) (b b' : StateBag) (k : Str) → Tends id b b' → IsOwned id b k → IsOwned id b' k
Tends-IsOwned id b b' k t (s, e, own) =
    let (u, f, last) = t k s e in (u, f, elim last [ inl l ↦ l ∙ own | inr r ↦ r ])

cons-IsWatched :
    (j : Str) (s : ZkState) (b : StateBag) (k : Str) → IsWatched b k → IsWatched ((j, s) ∷ b) k
unfolding find
cons-IsWatched j s b k (t, e) = elim (Bool-cases (str_eq j k)) [
  | inl own ↦ (s, rw own refl)
  | inr other ↦ (t, rw other e)
]

cons-All :
    (j : Str) (s : ZkState) (b : StateBag) (ks : List Str)
    → All (IsWatched b) ks
    → All (IsWatched ((j, s) ∷ b)) ks
cons-All j s b [] h = tt
cons-All j s b (k ∷ ks) h = (cons-IsWatched j s b k h.0, cons-All j s b ks h.1)

-- Every key of the list is in the bag, and every watch of the client is in the list.
pub keys_of-IsWatched : (x : ℕ) (b : StateBag) → All (IsWatched b) (keys_of x b)
unfolding keys_of find
keys_of-IsWatched x [] = tt
keys_of-IsWatched x ((j, s) ∷ b) =
    let rest = cons-All j s b (keys_of x b) (keys_of-IsWatched x b) in
    either (All (IsWatched ((j, s) ∷ b))) (s.client_id == x) _ _ (own, rest) rest
  where
    own : IsWatched ((j, s) ∷ b) j
    own = (s, rw (str_eq_refl j) refl)

pub owned_in :
    (x : ℕ) (P : Str → Type 0) (b : StateBag) (k : Str) (s : ZkState)
    → find k b ≡ some s
    → s.client_id ≡ x
    → All P (keys_of x b)
    → P k
unfolding keys_of find
owned_in x P [] k s e own h = cc
owned_in x P ((j, t) ∷ b) k s e own h = elim (Bool-cases (str_eq j k)) [
  | inl here ↦
      let same : t ≡ s = ground (arith, e) in
      let found : All P (j ∷ keys_of x b) =
        subst (All P) (if_true (t.client_id == x) _ _ (ground (arith, own))) h in
      subst P ((str_eq_iff j k).0 here) found.0
  | inr later ↦ owned_in x P b k s (ground (arith, e)) own (tail_all (t.client_id == x) h)
]
  where
    tail_all : (c : Bool) → All P (if c then j ∷ keys_of x b else keys_of x b) → All P (keys_of x b)
    tail_all true a = a.1
    tail_all false a = a

pub set-IsOwned :
    (b : StateBag) (k : Str) (s : ZkState)
    → find k b ≡ some s
    → (id id' : ℕ) → id ≡ id'
    → IsOwned id' (replace_client_id_of k id b) k
unfolding replace_client_id_of
set-IsOwned b k s e id id' same =
    (set_client_id id s, ground (arith, find-modify k k (set_client_id id) b, str_eq_refl k), same)

-- Where a watch with this client ends up.
abbrev pub Restored : ℕ → ZkState → ZkState → Type 0
Restored id s t =
    if (s.client_id == id) || (s.client_id == 0)
    then t.client_id ≡ id
    else (t.client_id ≡ s.client_id)
    ⊎ (t.client_id ≡ id)

pub Restored-by :
    (id : ℕ) (s t : ZkState)
    → ((s.client_id ≡ id) → t.client_id ≡ id)
    → ((s.client_id ≡ 0) → t.client_id ≡ id)
    → (t.client_id ≡ s.client_id) ⊎ (t.client_id ≡ id)
    → Restored id s t
Restored-by id s t own free other = elim (Bool-cases (s.client_id == id)) [
  | inl e ↦ rw e (own (ground arith))
  | inr d ↦ elim (Bool-cases (s.client_id == 0)) [
    | inl z ↦ rw (d, z) (free (ground arith))
    | inr n ↦ rw (d, n) other
  ]
]

pub owner_of :
    (id : ℕ) (b : StateBag) (k : Str) (t : ZkState)
    → find k b ≡ some t
    → IsOwned id b k
    → t.client_id ≡ id
owner_of id b k t e (u, f, own) = ground (arith, e, f, own)
