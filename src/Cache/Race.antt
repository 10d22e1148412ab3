-- ===== src/Cache/Race.antt =====
-- Between the scan of `remove_overdue` and its removals other threads may use the cache
-- (core/RegistryCache.cpp unlocks in between). What a registration then loses.
use sfproxy.Prelude.{
  ℕ, ◌≡◌, refl, subst, inl, inr, true, false, Option, none, some, List, [], ◌∷◌, ◌++◌, arith,
  Bool-cases, All, All-keep_if, Str, str_eq, str_eq_iff,
}
use sfproxy.Registry.{Registry, equals}
use sfproxy.Cache.{RegistryCache, add, remove_registry, collect, remove_all, get}
use sfproxy.Cache.Bucket.{IsComplete, Lacks, equals_iff, Lacks-equals}
use sfproxy.Cache.Invariant.{
  IsValid, find-IsBucket, add-IsValid, remove_registry-IsValid, remove_all-IsValid,
}
use sfproxy.Cache.Lookup.{others, bind_any, get-remove_registry}
use sfproxy.Cache.Overdue.{remove_all-append}

-- No service has an instance with the endpoint of `reg`.
abbrev pub Forgets : Registry → RegistryCache → Type 0
Forgets reg cache = (j : Str) (v : List Registry) → get j cache ≡ some v → Lacks reg v

Lacks-others : (reg : Registry) (v : List Registry) → Lacks reg (others reg v)
Lacks-others reg [] = tt
Lacks-others reg (r ∷ v) = ground (arith, Lacks-others reg v)

-- A list of another service has no such endpoint.
Lacks-foreign :
    (reg : Registry) (name : Str) (v : List Registry)
    → str_eq reg.name name ≡ false
    → All (IsComplete name) v
    → Lacks reg v
Lacks-foreign reg name [] h c = tt
Lacks-foreign reg name (r ∷ v) h c =
    (ground (arith, equals_iff r reg, str_eq_iff reg.name name), Lacks-foreign reg name v h c.1)

bind_any-inv :
    (o : Option (List Registry)) (f : List Registry → List Registry) (v : List Registry)
    → bind_any o f ≡ some v
    → (w : List Registry) × (o ≡ some w) × (f w ≡ v)
bind_any-inv none f v e = cc
bind_any-inv (some w) f v e = (w, refl, ground arith)

remove_registry-Forgets_self :
    (reg : Registry) (cache : RegistryCache)
    → IsValid cache
    → Forgets reg (remove_registry reg cache)
remove_registry-Forgets_self reg cache h j v e = elim (Bool-cases (str_eq reg.name j)) [
  | inl own ↦
      let (w, found, is) =
        bind_any-inv (get reg.name cache) (others reg) v
          (ground (arith, get-remove_registry reg cache j h)) in
      subst (Lacks reg) is (Lacks-others reg w)
  | inr foreign ↦
      Lacks-foreign reg j v foreign
        (find-IsBucket j v cache h.buckets
          (unfold get in (ground (arith, get-remove_registry reg cache j h)))).complete
]

remove_registry-Forgets :
    (reg other : Registry) (cache : RegistryCache)
    → IsValid cache
    → Forgets reg cache
    → Forgets reg (remove_registry other cache)
remove_registry-Forgets reg other cache h k j v e = elim (Bool-cases (str_eq other.name j)) [
  | inl own ↦
      let (w, found, is) =
        bind_any-inv (get other.name cache) (others other) v
          (ground (arith, get-remove_registry other cache j h)) in
      subst (Lacks reg) is (All-keep_if _ _ w (k other.name w found))
  | inr foreign ↦ k j v (ground (arith, get-remove_registry other cache j h))
]

remove_all-Forgets :
    (reg : Registry) (v_del : List Registry) (cache : RegistryCache)
    → IsValid cache
    → Forgets reg cache
    → Forgets reg (remove_all v_del cache)
unfolding remove_all
remove_all-Forgets reg [] cache h k = k
remove_all-Forgets reg (r ∷ v_del) cache h k =
    remove_all-Forgets reg v_del (remove_registry r cache) (remove_registry-IsValid r cache h)
      (remove_registry-Forgets reg r cache h k)

-- Suppose that the scan of `remove_overdue` on a valid cache collects an instance, and that a
-- registration with the same endpoint is added before the removals run. Then the endpoint is gone
-- from the cache afterwards, however recent the `mtime` of the added instance is.
pub remove_overdue_race :
    (timestamp_ms : ℕ) (cache : RegistryCache) (old new : Registry) (pre post : List Registry)
    → IsValid cache
    → collect timestamp_ms cache ≡ pre ++ (old ∷ post)
    → equals old new ≡ true
    → Forgets new (remove_all (collect timestamp_ms cache) (add new cache))
remove_overdue_race timestamp_ms cache old new pre post h scan same j v =
    rw (scan, remove_all-append pre (old ∷ post) (add new cache))
      (λ e. Lacks-equals old new v same (forgotten j v e))
  where
    before : RegistryCache
    before = remove_all pre (add new cache)

    before-IsValid : IsValid before
    before-IsValid = remove_all-IsValid pre (add new cache) (add-IsValid new cache h)

    forgotten : Forgets old (remove_all (old ∷ post) before)
    forgotten =
        unfold remove_all in
        (remove_all-Forgets old post (remove_registry old before)
          (remove_registry-IsValid old before before-IsValid)
          (remove_registry-Forgets_self old before before-IsValid))
