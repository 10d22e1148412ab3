-- ===== src/Cache/Overdue.antt =====
-- `remove_overdue` of core/RegistryCache.cpp, which scans first and removes one by one afterwards,
-- against a filter.
use sfproxy.Prelude.{
  ℕ, ◌≡◌, refl, ap, ◌∙◌, subst, ◌≢◌, inl, inr, ◌&&◌, not, none, List, [], ◌∷◌, ◌++◌, arith, ltb,
  if◌then◌else◌, Bool-cases, str_lt_irrefl, keep_if, All, All-append, All-keep_if, Str, str_eq_iff,
  str_eq_refl,
}
use mathlib.Core.List.{append_assoc}
use sfproxy.OrderedMap.{find, erase, modify}
use sfproxy.OrderedMap.Order.{After, find-After}
use sfproxy.Registry.{Registry, equals}
use sfproxy.Cache.{
  RegistryCache, erase_first, remove_registry, overdue, collect, remove_all, remove_overdue, is_nil,
}
use sfproxy.Cache.Bucket.{IsComplete, Lacks, Distinct, equals_refl, equals_sym}
use sfproxy.Cache.Invariant.{IsValid, Buckets}

-- The instances that are not overdue.
abbrev pub fresh : ℕ → List Registry → List Registry
fresh timestamp_ms = keep_if (λ r. not (ltb r.mtime timestamp_ms))

-- A service whose instances were all overdue goes; one that had none stays.
abbrev pub settle : Str → List Registry → List Registry → RegistryCache → RegistryCache
settle name rest v cache = if is_nil rest && not (is_nil v) then cache else (name, rest) ∷ cache

unfoldable pub purge : ℕ → RegistryCache → RegistryCache
purge timestamp_ms [] = []
purge timestamp_ms ((name, v) ∷ cache) =
    settle name (fresh timestamp_ms v) v (purge timestamp_ms cache)

pub erase_absent :
    (name : Str) (cache : RegistryCache) → find name cache ≡ none → erase name cache ≡ cache
unfolding find erase
erase_absent name [] e = refl
erase_absent name ((n, v) ∷ cache) e = ground (arith, erase_absent name cache)

modify_absent :
    (name : Str) (f : List Registry → List Registry) (cache : RegistryCache)
    → find name cache ≡ none
    → modify name f cache ≡ cache
unfolding find modify
modify_absent name f [] e = refl
modify_absent name f ((n, v) ∷ cache) e = ground (arith, modify_absent name f cache)

-- A removal from the first service.
remove_head :
    (r : Registry) (v : List Registry) (cache : RegistryCache)
    → find r.name cache ≡ none
    → remove_registry r ((r.name, v) ∷ cache) ≡ (
        if is_nil (erase_first (λ s. equals s r) v)
        then cache
        else (r.name, erase_first (λ s. equals s r) v) ∷ cache)
unfolding remove_registry find erase modify
remove_head r v cache e = ground (
  arith,
  str_eq_refl r.name,
  erase_absent r.name cache e,
  modify_absent r.name (λ _. erase_first (λ s. equals s r) v) cache e,
)

-- A removal from a later one.
remove_tail :
    (r : Registry) (name : Str) (v : List Registry) (cache : RegistryCache)
    → name ≢ r.name
    → remove_registry r ((name, v) ∷ cache) ≡ (name, v) ∷ remove_registry r cache
unfolding remove_registry find erase modify
remove_tail r name v cache d = ground (arith, str_eq_iff name r.name)

erase_first-middle :
    (r : Registry) (pre v : List Registry)
    → Lacks r pre
    → erase_first (λ s. equals s r) (pre ++ (r ∷ v)) ≡ pre ++ v
unfolding erase_first
erase_first-middle r [] v l = ground (arith, equals_refl r)
erase_first-middle r (s ∷ pre) v l = ground (arith, erase_first-middle r pre v l.1)

-- `Below`: every member of the second list has an endpoint that the first lacks.
abbrev Apart : List Registry → List Registry → Type 0
Apart pre v = All (λ r. Lacks r pre) v

Apart-snoc :
    (pre : List Registry) (r : Registry) (v : List Registry)
    → Apart pre v
    → Lacks r v
    → Apart (pre ++ (r ∷ [])) v
Apart-snoc pre r [] a l = tt
Apart-snoc pre r (s ∷ v) a l =
    (All-append _ pre (r ∷ []) a.0 (ground (arith, equals_sym r s), tt), Apart-snoc pre r v a.1 l.1)

remove_head_named :
    (r : Registry) (name : Str) (pre v : List Registry) (cache : RegistryCache)
    → r.name ≡ name
    → find name cache ≡ none
    → Lacks r pre
    → remove_registry r ((name, pre ++ (r ∷ v)) ∷ cache)
      ≡ (if is_nil (pre ++ v) then cache else (name, pre ++ v) ∷ cache)
remove_head_named r name pre v cache h e l =
    subst
      (λ n.
        remove_registry r ((n, pre ++ (r ∷ v)) ∷ cache)
        ≡ (if is_nil (pre ++ v) then cache else (n, pre ++ v) ∷ cache))
      h (remove_head r (pre ++ (r ∷ v)) cache (rw h e) ∙ rw (erase_first-middle r pre v l))

module _ (timestamp_ms : ℕ) (name : Str) (cache : RegistryCache)
    (absent : find name cache ≡ none) where
  removed :
      (r : Registry) (pre v : List Registry)
      → remove_all (overdue timestamp_ms v) ((name, pre ++ v) ∷ cache)
        ≡ settle name (pre ++ fresh timestamp_ms v) (pre ++ v) cache
      → remove_all
          (overdue timestamp_ms v)
          (if is_nil (pre ++ v) then cache else (name, pre ++ v) ∷ cache)
        ≡ settle name (pre ++ fresh timestamp_ms v) (pre ++ (r ∷ v)) cache
  unfolding remove_all overdue
  removed r [] [] h = refl
  removed r [] (s ∷ v) h = h
  removed r (p ∷ pre) v h = h

  -- The overdue instances of the first service, removed one by one; `pre` has been passed.
  remove_all_head :
      (pre v : List Registry)
      → All (λ r. r.name ≡ name) v
      → Apart pre v
      → Distinct v
      → remove_all (overdue timestamp_ms v) ((name, pre ++ v) ∷ cache)
        ≡ settle name (pre ++ fresh timestamp_ms v) (pre ++ v) cache
  unfolding remove_all overdue
  remove_all_head [] [] n a d = refl
  remove_all_head (p ∷ pre) [] n a d = refl
  remove_all_head pre (r ∷ v) n a d = elim (Bool-cases (ltb r.mtime timestamp_ms)) [
    | inl late ↦ rw late (
        ap (remove_all (overdue timestamp_ms v))
          (remove_head_named r name pre v cache n.0 absent a.0)
        ∙ removed r pre v (remove_all_head pre v n.1 a.1 d.1))
    | inr kept ↦ rw kept (
        subst
          (λ w.
            remove_all (overdue timestamp_ms v) ((name, w) ∷ cache)
            ≡ settle name (pre ++ (r ∷ fresh timestamp_ms v)) w cache)
          (append_assoc pre (r ∷ []) v)
          (remove_all_head (pre ++ (r ∷ [])) v n.1 (Apart-snoc pre r v a.1 d.0) d.1
            ∙ ap (λ w. settle name w ((pre ++ (r ∷ [])) ++ v) cache)
                (append_assoc pre (r ∷ []) (fresh timestamp_ms v))))
  ]

pub remove_all-append :
    (xs ys : List Registry) (cache : RegistryCache)
    → remove_all (xs ++ ys) cache ≡ remove_all ys (remove_all xs cache)
unfolding remove_all
remove_all-append [] ys cache = refl
remove_all-append (x ∷ xs) ys cache = remove_all-append xs ys (remove_registry x cache)

remove_all_tail :
    (v_del : List Registry) (name : Str) (v : List Registry) (cache : RegistryCache)
    → All (λ r. name ≢ r.name) v_del
    → remove_all v_del ((name, v) ∷ cache) ≡ (name, v) ∷ remove_all v_del cache
unfolding remove_all
remove_all_tail [] name v cache d = refl
remove_all_tail (r ∷ v_del) name v cache d =
    rw (remove_tail r name v cache d.0) (remove_all_tail v_del name v (remove_registry r cache) d.1)

-- `name` is not among the services of the instances that a scan of later services collects.
collect_names :
    (timestamp_ms : ℕ) (name : Str) (cache : RegistryCache)
    → After name cache
    → Buckets cache
    → All (λ r. name ≢ r.name) (collect timestamp_ms cache)
unfolding collect
collect_names timestamp_ms name [] a b = tt
collect_names timestamp_ms name ((n, v) ∷ cache) a b =
    All-append _ (overdue timestamp_ms v) (collect timestamp_ms cache)
      (unfold overdue in (All-keep_if _ _ v (named v b.0.complete)))
      (collect_names timestamp_ms name cache a.1 b.1)
  where
    named : (w : List Registry) → All (IsComplete n) w → All (λ r. name ≢ r.name) w
    named [] c = tt
    named (r ∷ w) c = (λ e. cc (str_lt_irrefl name, c.0.0, a.0), named w c.1)

names_of : (name : Str) (v : List Registry) → All (IsComplete name) v → All (λ r. r.name ≡ name) v
names_of name [] c = tt
names_of name (r ∷ v) c = (c.0.0, names_of name v c.1)

Apart-nil : (v : List Registry) → Apart [] v
Apart-nil [] = tt
Apart-nil (r ∷ v) = (tt, Apart-nil v)

remove_all-settle :
    (timestamp_ms : ℕ) (name : Str) (rest v : List Registry) (cache : RegistryCache)
    → All (λ r. name ≢ r.name) (collect timestamp_ms cache)
    → remove_all (collect timestamp_ms cache) cache ≡ purge timestamp_ms cache
    → remove_all (collect timestamp_ms cache) (settle name rest v cache)
      ≡ settle name rest v (purge timestamp_ms cache)
remove_all-settle timestamp_ms name rest v cache d ih =
    elim (Bool-cases (is_nil rest && not (is_nil v))) [
      | inl gone ↦ rw gone ih
      | inr kept ↦ rw kept (
          remove_all_tail (collect timestamp_ms cache) name rest cache d ∙ ap (◌∷◌ (name, rest)) ih)
    ]

-- On a valid cache, `remove_overdue` keeps of each service, in order, exactly the instances whose
-- `mtime` has reached the given time. A service goes if it had instances and keeps none.
pub remove_overdue-purge :
    (timestamp_ms : ℕ) (cache : RegistryCache)
    → IsValid cache
    → remove_overdue timestamp_ms cache ≡ purge timestamp_ms cache
unfolding remove_overdue collect purge remove_all
remove_overdue-purge timestamp_ms [] h = refl
remove_overdue-purge timestamp_ms ((name, v) ∷ cache) h =
    remove_all-append (overdue timestamp_ms v) (collect timestamp_ms cache) ((name, v) ∷ cache)
    ∙ ap (remove_all (collect timestamp_ms cache)) (
        remove_all_head timestamp_ms name cache (find-After name cache h.sorted.0) [] v
          (names_of name v h.buckets.0.complete) (Apart-nil v) h.buckets.0.distinct)
    ∙ remove_all-settle timestamp_ms name (fresh timestamp_ms v) v cache
        (collect_names timestamp_ms name cache h.sorted.0 h.buckets.1)
        (unfold remove_overdue in
          (remove_overdue-purge timestamp_ms cache
            (record { sorted = h.sorted.1; buckets = h.buckets.1 })))
