-- ===== src/Cache/Invariant.antt =====
-- The invariant of the cache of core/RegistryCache.cpp.
use sfproxy.Prelude.{
  ℕ, ◌≡◌, refl, sym, subst, inl, inr, Bool, ◌||◌, some, List, [], ◌∷◌, arith, if◌then◌else◌,
  Bool-cases, Option-cases, Str, str_eq, str_eq_iff,
}
use sfproxy.OrderedMap.{find, place, insert, erase, modify}
use sfproxy.OrderedMap.Order.{IsSorted, insert-IsSorted, erase-IsSorted, modify-IsSorted}
use sfproxy.Registry.{Registry, is_empty, equals}
use sfproxy.Cache.{
  RegistryCache, erase_first, renew, add, remove_ephemeral, remove_registry, remove_all, replace,
  is_nil, add_loaded, as_loaded,
}
use sfproxy.Cache.Bucket.{
  IsBucket, IsComplete, All-erase_first, erase_first-Distinct, renew-IsBucket,
}

abbrev pub Buckets : RegistryCache → Type 0
Buckets [] = Unit
Buckets ((name, v) ∷ cache) = IsBucket name v × Buckets cache

-- Each service stands once, in order; its instances bear its name, are complete, and have distinct
-- endpoints.
pub record IsValid (cache : RegistryCache) : Type 0 where
  pub sorted : IsSorted cache
  pub buckets : Buckets cache

pub find-IsBucket :
    (name : Str) (v : List Registry) (cache : RegistryCache)
    → Buckets cache
    → find name cache ≡ some v
    → IsBucket name v
unfolding find
find-IsBucket name v [] b e = cc
find-IsBucket name v ((n, w) ∷ cache) b e = elim (Bool-cases (str_eq n name)) [
  | inl h ↦
      subst (λ k. IsBucket k v) ((str_eq_iff n name).0 h) (subst (IsBucket n) (ground arith) b.0)
  | inr h ↦ find-IsBucket name v cache b.1 (ground arith)
]

place-Buckets :
    (name : Str) (v : List Registry) (cache : RegistryCache)
    → IsBucket name v
    → Buckets cache
    → Buckets (place name v cache)
unfolding place
place-Buckets name v [] h b = (h, tt)
place-Buckets name v ((n, w) ∷ cache) h b = ground (arith, place-Buckets name v cache h b.1)

insert-Buckets :
    (name : Str) (v : List Registry) (cache : RegistryCache)
    → IsBucket name v
    → Buckets cache
    → Buckets (insert name v cache)
unfolding insert
insert-Buckets name v cache h b = elim (Option-cases (find name cache)) [
  | inl e ↦ rw (e, insert) (place-Buckets name v cache h b)
  | inr (w, e) ↦ rw (e, insert) b
]

erase-Buckets : (name : Str) (cache : RegistryCache) → Buckets cache → Buckets (erase name cache)
unfolding erase
erase-Buckets name [] b = tt
erase-Buckets name ((n, w) ∷ cache) b = ground (arith, erase-Buckets name cache b.1)

modify-Buckets :
    (name : Str) (f : List Registry → List Registry) (cache : RegistryCache)
    → ((v : List Registry) → IsBucket name v → IsBucket name (f v))
    → Buckets cache
    → Buckets (modify name f cache)
unfolding modify
modify-Buckets name f [] keep b = tt
modify-Buckets name f ((n, w) ∷ cache) keep b = elim (Bool-cases (str_eq n name)) [
  | inl h ↦
      let e : n ≡ name = (str_eq_iff n name).0 h in
      rw h (
        subst (λ k. IsBucket k (f w)) (sym e) (keep w (subst (λ k. IsBucket k w) e b.0)),
        modify-Buckets name f cache keep b.1,
      )
  | inr h ↦ rw h (b.0, modify-Buckets name f cache keep b.1)
]

modify-IsValid :
    (name : Str) (f : List Registry → List Registry) (cache : RegistryCache)
    → ((v : List Registry) → IsBucket name v → IsBucket name (f v))
    → IsValid cache
    → IsValid (modify name f cache)
modify-IsValid name f cache keep h = record {
  sorted = modify-IsSorted name f cache h.sorted;
  buckets = modify-Buckets name f cache keep h.buckets;
}

pub erase-IsValid :
    (name : Str) (cache : RegistryCache) → IsValid cache → IsValid (erase name cache)
erase-IsValid name cache h = record {
  sorted = erase-IsSorted name cache h.sorted;
  buckets = erase-Buckets name cache h.buckets;
}

insert-IsValid :
    (name : Str) (v : List Registry) (cache : RegistryCache)
    → IsBucket name v
    → IsValid cache
    → IsValid (insert name v cache)
insert-IsValid name v cache b h = record {
  sorted = insert-IsSorted name v cache h.sorted;
  buckets = insert-Buckets name v cache b h.buckets;
}

erase_first-IsBucket :
    (name : Str) (p : Registry → Bool) (v : List Registry)
    → IsBucket name v
    → IsBucket name (erase_first p v)
erase_first-IsBucket name p v b = record {
  complete = All-erase_first (IsComplete name) p v b.complete;
  distinct = erase_first-Distinct p v b.distinct;
}

pub add-IsValid : (reg : Registry) (cache : RegistryCache) → IsValid cache → IsValid (add reg cache)
unfolding add
add-IsValid reg cache h =
    elim (Bool-cases (is_empty reg.name || (is_empty reg.host || is_empty reg.ephemeral))) [
      | inl bad ↦ rw bad h
      | inr good ↦
          let c : IsComplete reg.name reg = (refl, ground arith, ground arith, ground arith) in
          rw good (elim (Option-cases (find reg.name cache)) [
            | inl e ↦
                rw (e, add)
                  (insert-IsValid reg.name (reg ∷ []) cache
                    (record { complete = (c, tt); distinct = (tt, tt) }) h)
            | inr (v, e) ↦
                rw (e, add)
                  (modify-IsValid reg.name (renew reg) cache (λ w. renew-IsBucket reg reg.name w c)
                    h)
          ])
    ]

pub remove_registry-IsValid :
    (reg : Registry) (cache : RegistryCache) → IsValid cache → IsValid (remove_registry reg cache)
unfolding remove_registry
remove_registry-IsValid reg cache h = elim (Option-cases (find reg.name cache)) [
  | inl e ↦ rw (e, remove_registry) h
  | inr (v, e) ↦ rw (e, remove_registry) (rest v (find-IsBucket reg.name v cache h.buckets e))
]
  where
    rest :
        (v : List Registry)
        → IsBucket reg.name v
        → IsValid (
            if is_nil (erase_first (λ r. equals r reg) v)
            then erase reg.name cache
            else modify reg.name (λ _. erase_first (λ r. equals r reg) v) cache)
    rest v b = elim (Bool-cases (is_nil (erase_first (λ r. equals r reg) v))) [
      | inl e ↦ rw e (erase-IsValid reg.name cache h)
      | inr e ↦ rw e (
          modify-IsValid reg.name _ cache
            (λ _ _. erase_first-IsBucket reg.name (λ r. equals r reg) v b) h)
    ]

pub remove_all-IsValid :
    (v_del : List Registry) (cache : RegistryCache)
    → IsValid cache
    → IsValid (remove_all v_del cache)
unfolding remove_all
remove_all-IsValid [] cache h = h
remove_all-IsValid (r ∷ v_del) cache h =
    remove_all-IsValid v_del (remove_registry r cache) (remove_registry-IsValid r cache h)

pub remove_ephemeral-IsValid :
    (name ephemeral : Str) (cache : RegistryCache)
    → IsValid cache
    → IsValid (remove_ephemeral name ephemeral cache)
unfolding remove_ephemeral
remove_ephemeral-IsValid name ephemeral cache h = ground (
  arith,
  modify-IsValid name (erase_first (λ r. str_eq r.ephemeral ephemeral)) cache
      (λ w. erase_first-IsBucket name (λ r. str_eq r.ephemeral ephemeral) w) h,
)

pub add_loaded-IsValid :
    (now : ℕ) (rs : List Registry) (cache : RegistryCache)
    → IsValid cache
    → IsValid (add_loaded now rs cache)
unfolding add_loaded
add_loaded-IsValid now [] cache h = h
add_loaded-IsValid now (r ∷ rs) cache h =
    add_loaded-IsValid now rs (add (as_loaded now r) cache) (add-IsValid (as_loaded now r) cache h)

pub replace-IsValid :
    (name : Str) (l : List Registry) (cache : RegistryCache)
    → IsBucket name l
    → IsValid cache
    → IsValid (replace name l cache)
unfolding replace
replace-IsValid name l cache b h = elim (Option-cases (find name cache)) [
  | inl e ↦ rw (e, replace) (insert-IsValid name l cache b h)
  | inr (v, e) ↦
      rw (e, replace)
        (insert-IsValid name l _ b
          (modify-IsValid name (λ _. []) cache (λ _ _. record { complete = tt; distinct = tt }) h))
]
