-- ===== src/Cache/Reload.antt =====
-- The cache of core/RegistryCache.cpp, written to a file and read back.
use sfproxy.Prelude.{
  ℕ, ◌≡◌, refl, sym, ap, ◌∙◌, subst, inl, inr, false, Option, none, some, List, [], ◌∷◌, ◌++◌, map,
  arith, if◌then◌else◌, Bool-cases, All, Str, codes, str_eq, str_eq_iff, str_eq_refl,
}
use sfproxy.OrderedMap.{find}
use sfproxy.OrderedMap.Order.{IsSorted, find-After}
use sfproxy.Registry.{Registry, equals, new_registry}
use sfproxy.Registry.Layout.{item_of, registry_of}
use sfproxy.Cache.{RegistryCache, add, get, remove_name, all_instances, as_loaded, add_loaded}
use sfproxy.Cache.Bucket.{IsBucket, IsComplete, Lacks, Distinct}
use sfproxy.Cache.Invariant.{IsValid, add-IsValid}
use sfproxy.Cache.Overdue.{erase_absent}
use sfproxy.Cache.Rebuild.{add_all, add_all_other, add_all_rebuilds}

-- An instance after it was saved and loaded at time `now`.
abbrev pub loaded : ℕ → Registry → Registry
loaded now r = record {
  name = r.name;
  host = r.host;
  port = r.port;
  ctime = now;
  mtime = now;
  ephemeral = codes "from_file";
  json = [];
}

pub add_loaded-loaded :
    (t now : ℕ) (v : List Registry) (cache : RegistryCache)
    → add_loaded now (map (registry_of now) (map (item_of t) v)) cache
      ≡ add_all (map (loaded now) v) cache
unfolding add_loaded add_all as_loaded new_registry
add_loaded-loaded t now [] cache = refl
add_loaded-loaded t now (r ∷ v) cache = add_loaded-loaded t now v (add (loaded now r) cache)

add_all-append :
    (v w : List Registry) (cache : RegistryCache)
    → add_all (v ++ w) cache ≡ add_all w (add_all v cache)
unfolding add_all
add_all-append [] w cache = refl
add_all-append (r ∷ v) w cache = add_all-append v w (add r cache)

add_all-IsValid :
    (v : List Registry) (cache : RegistryCache) → IsValid cache → IsValid (add_all v cache)
unfolding add_all
add_all-IsValid [] cache h = h
add_all-IsValid (r ∷ v) cache h = add_all-IsValid v (add r cache) (add-IsValid r cache h)

map-append : (f : Registry → Registry) (v w : List Registry) → map f (v ++ w) ≡ map f v ++ map f w
map-append f [] w = refl
map-append f (r ∷ v) w = ap (λ l. f r ∷ l) (map-append f v w)

module _ (now : ℕ) where
  loaded-Complete :
      (name : Str) (v : List Registry)
      → All (IsComplete name) v
      → All (IsComplete name) (map (loaded now) v)
  loaded-Complete name [] h = tt
  loaded-Complete name (r ∷ v) ((e, n, o, m), h) = ((e, n, o, refl), loaded-Complete name v h)

  loaded-Lacks :
      (r : Registry) (v : List Registry) → Lacks r v → Lacks (loaded now r) (map (loaded now) v)
  unfolding equals
  loaded-Lacks r [] h = tt
  loaded-Lacks r (s ∷ v) h = (h.0, loaded-Lacks r v h.1)

  loaded-Distinct : (v : List Registry) → Distinct v → Distinct (map (loaded now) v)
  loaded-Distinct [] h = tt
  loaded-Distinct (r ∷ v) h = (loaded-Lacks r v h.0, loaded-Distinct v h.1)

  -- What a service is after the reloading: one without instances is gone.
  abbrev pub reloaded : Option (List Registry) → Option (List Registry)
  reloaded none = none
  reloaded (some []) = none
  reloaded (some (r ∷ v)) = some (map (loaded now) (r ∷ v))

  -- With what was in the cache before.
  abbrev merged : Option (List Registry) → Option (List Registry) → Option (List Registry)
  merged (some (r ∷ v)) o = some (map (loaded now) (r ∷ v))
  merged (some []) o = o
  merged none o = o

  abbrev Apart : RegistryCache → RegistryCache → Type 0
  Apart cache base = (k : Str) (v : List Registry) → find k cache ≡ some v → get k base ≡ none

  add_service :
      (name j : Str) (v : List Registry) (base : RegistryCache)
      → IsValid base
      → IsBucket name v
      → get name base ≡ none
      → get j (add_all (map (loaded now) v) base)
        ≡ (if str_eq name j then merged (some v) (get j base) else get j base)
  unfolding add_all remove_name get
  add_service name j [] base h b e = ground arith
  add_service name j (r ∷ v) base h b e =
      ap (λ c. get j (add_all (map (loaded now) (r ∷ v)) c)) (sym (erase_absent name base e))
      ∙ add_all_rebuilds name j (loaded now r) (map (loaded now) v) base h
          (loaded-Complete name (r ∷ v) b.complete) (loaded-Distinct (r ∷ v) b.distinct)

  other_service :
      (name k : Str) (v : List Registry) (base : RegistryCache)
      → IsValid base
      → IsBucket name v
      → str_eq name k ≡ false
      → get k (add_all (map (loaded now) v) base) ≡ get k base
  other_service name k v base h b n =
      add_all_other name k (map (loaded now) v) base h (loaded-Complete name v b.complete) n

  find_tail :
      (name k : Str) (v w : List Registry) (cache : RegistryCache)
      → IsSorted ((name, v) ∷ cache)
      → find k cache ≡ some w
      → str_eq name k ≡ false
  find_tail name k v w cache s e = elim (Bool-cases (str_eq name k)) [
    | inr other ↦ other
    | inl same ↦ absurd (
        let gone : find k cache ≡ none =
          subst (λ n. find n cache ≡ none) ((str_eq_iff name k).0 same)
            (find-After name cache s.0) in
        cc (sym gone ∙ e))
  ]

  pub reload :
      (cache base : RegistryCache) (j : Str)
      → IsValid cache
      → IsValid base
      → Apart cache base
      → get j (add_all (map (loaded now) (all_instances cache)) base)
        ≡ merged (find j cache) (get j base)
  unfolding all_instances find
  reload [] base j h b a = unfold add_all in refl
  reload ((name, v) ∷ cache) base j h b a =
      let base' = add_all (map (loaded now) v) base in
      let missing : get name base ≡ none = a name v (rw (str_eq_refl name) refl) in
      let apart : Apart cache base' = λ k w e.
        let n = find_tail name k v w cache h.sorted e in
        other_service name k v base b h.buckets.0 n ∙ a k w (rw n e) in
      ap (λ l. get j (add_all l base)) (map-append (loaded now) v (all_instances cache))
      ∙ ap (get j)
          (add_all-append (map (loaded now) v) (map (loaded now) (all_instances cache)) base)
      ∙ reload cache base' j (record { sorted = h.sorted.1; buckets = h.buckets.1 })
          (add_all-IsValid (map (loaded now) v) base b) apart
      ∙ elim (Bool-cases (str_eq name j)) [
        | inl same ↦
            let gone : find j cache ≡ none =
              subst (λ n. find n cache ≡ none) ((str_eq_iff name j).0 same)
                (find-After name cache h.sorted.0) in
            ap (λ o. merged o (get j base')) gone
            ∙ add_service name j v base b h.buckets.0 missing
            ∙ rw same refl
        | inr other ↦
            ap (merged (find j cache)) (other_service name j v base b h.buckets.0 other)
            ∙ rw other refl
      ]

  -- Into an empty cache.
  pub reload_empty :
      (cache : RegistryCache) (j : Str)
      → IsValid cache
      → get j (add_all (map (loaded now) (all_instances cache)) []) ≡ reloaded (find j cache)
  unfolding get find
  reload_empty cache j h =
      reload cache [] j h (record { sorted = tt; buckets = tt }) (λ k v e. refl)
      ∙ both (find j cache)
    where
      both : (o : Option (List Registry)) → merged o none ≡ reloaded o
      both none = refl
      both (some []) = refl
      both (some (r ∷ v)) = refl
