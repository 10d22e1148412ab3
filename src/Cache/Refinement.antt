-- ===== src/Cache/Refinement.antt =====
-- The contract of core/RegistryCache.h: a function from services to their instances, which forgets
-- how the cache stores them.
use sfproxy.Prelude.{
  ℕ, ◌≡◌, refl, ap, ◌∙◌, inl, inr, ◌&&◌, ◌||◌, not, Option, none, some, List, [], ◌∷◌, ◌++◌, arith,
  if◌then◌else◌, Option-cases, All, Str, str_eq, str_eq_iff,
}
use std.Path.{fun_ext}
use mathlib.Core.Option
use sfproxy.OrderedMap.{find}
use sfproxy.OrderedMap.Laws.{find-erase, find-modify}
use sfproxy.OrderedMap.Order.{find-After}
use sfproxy.Registry.{Registry, is_empty}
use sfproxy.Cache.{
  RegistryCache, erase_first, add, remove_ephemeral, remove_name, replace, clear, get, exists,
  is_nil, as_loaded, add_loaded,
}
use sfproxy.Cache.Invariant.{IsValid, add-IsValid}
use sfproxy.Cache.Lookup.{
  others, is_incomplete, bind_any, get-add, get-remove_registry, get-replace,
}
use sfproxy.Cache.Overdue.{fresh, settle, purge, remove_overdue-purge}
use sfproxy.Cache.Calls.{
  CacheCall, adds, removes_ephemeral, removes_registry, removes_name, removes_overdue, replaces,
  clears, loads, Admits, step, step-IsValid,
}

-- The instances of each service, in the order in which their data came.
abbrev pub Services : Type 0
Services = Str → Option (List Registry)

abbrev pub services : RegistryCache → Services
services cache j = get j cache

-- A service whose instances are all overdue goes; one without instances stays.
abbrev pub without_overdue : ℕ → Option (List Registry) → Option (List Registry)
without_overdue timestamp_ms none = none
without_overdue timestamp_ms (some v) =
    if is_nil (fresh timestamp_ms v) && not (is_nil v) then none else some (fresh timestamp_ms v)

abbrev pub spec_add : Registry → Services → Services
spec_add reg s j =
    if is_incomplete reg
    then s j
    else if str_eq reg.name j
    then some (others reg (Option.get_or (s reg.name) []) ++ (reg ∷ []))
    else s j

unfoldable pub spec_loads : ℕ → List Registry → Services → Services
spec_loads now [] s = s
spec_loads now (r ∷ rs) s = spec_loads now rs (spec_add (as_loaded now r) s)

-- A list that is stored for a service that has one is lost with the old one.
abbrev pub spec_replace : List Registry → Option (List Registry) → Option (List Registry)
spec_replace l none = some l
spec_replace l (some _) = some []

-- What each call means for the services.
unfoldable pub spec : CacheCall → Services → Services
unfolding spec_loads
spec (adds reg) s = spec_add reg s
spec (removes_ephemeral name ephemeral) s = λ j.
    if not (is_empty name || is_empty ephemeral) && str_eq name j
    then Option.map (erase_first (λ r. str_eq r.ephemeral ephemeral)) (s j)
    else s j
spec (removes_registry reg) s =
    λ j. if str_eq reg.name j then bind_any (s reg.name) (others reg) else s j
spec (removes_name name) s = λ j. if str_eq name j then none else s j
spec (removes_overdue timestamp_ms) s = λ j. without_overdue timestamp_ms (s j)
spec (replaces name l) s = λ j. if str_eq name j then spec_replace l (s name) else s j
spec clears s = λ j. none
spec (loads now rs) s = spec_loads now rs s

find-settle :
    (j name : Str) (rest v : List Registry) (cache : RegistryCache)
    → find name cache ≡ none
    → find j (settle name rest v cache) ≡ (
        if str_eq name j
        then (if is_nil rest && not (is_nil v) then none else some rest)
        else find j cache)
unfolding find
find-settle j name rest v cache absent = ground (arith, str_eq_iff name j)

module _ (timestamp_ms : ℕ) where
  purge_absent :
      (name : Str) (cache : RegistryCache)
      → find name cache ≡ none
      → find name (purge timestamp_ms cache) ≡ none
  unfolding find purge
  purge_absent name [] e = refl
  purge_absent name ((n, v) ∷ cache) e = ground (arith, purge_absent name cache)

  pub find-purge :
      (j : Str) (cache : RegistryCache)
      → IsValid cache
      → find j (purge timestamp_ms cache) ≡ without_overdue timestamp_ms (find j cache)
  unfolding find purge
  find-purge j [] h = refl
  find-purge j ((n, v) ∷ cache) h =
      find-settle j n (fresh timestamp_ms v) v (purge timestamp_ms cache)
        (purge_absent n cache (find-After n cache h.sorted.0))
      ∙ ground (arith, find-purge j cache (record { sorted = h.sorted.1; buckets = h.buckets.1 }))

add-spec :
    (reg : Registry) (cache : RegistryCache)
    → IsValid cache
    → services (add reg cache) ≡ spec_add reg (services cache)
add-spec reg cache h = fun_ext (λ j. get-add reg cache j h)

loads-spec :
    (now : ℕ) (rs : List Registry) (cache : RegistryCache)
    → IsValid cache
    → services (add_loaded now rs cache) ≡ spec_loads now rs (services cache)
unfolding add_loaded spec_loads
loads-spec now [] cache h = refl
loads-spec now (r ∷ rs) cache h =
    loads-spec now rs (add (as_loaded now r) cache) (add-IsValid (as_loaded now r) cache h)
    ∙ ap (spec_loads now rs) (add-spec (as_loaded now r) cache h)

ephemeral-spec :
    (name ephemeral j : Str) (cache : RegistryCache)
    → get j (remove_ephemeral name ephemeral cache)
      ≡ spec (removes_ephemeral name ephemeral) (services cache) j
unfolding get remove_ephemeral spec
ephemeral-spec name ephemeral j cache =
    ground (arith, find-modify name j (erase_first (λ r. str_eq r.ephemeral ephemeral)) cache)

replaced :
    (name : Str) (l : List Registry) (cache : RegistryCache)
    → (if exists name cache then some [] else some l) ≡ spec_replace l (get name cache)
unfolding exists get
replaced name l cache = elim (Option-cases (find name cache)) [
  | inl e ↦ rw (e, exists) refl
  | inr (v, e) ↦ rw (e, exists) refl
]

replace-spec :
    (name j : Str) (l : List Registry) (cache : RegistryCache)
    → get j (replace name l cache) ≡ spec (replaces name l) (services cache) j
unfolding spec
replace-spec name j l cache =
    get-replace name j l cache
    ∙ ap (λ r. if str_eq name j then r else get j cache) (replaced name l cache)

pub step-spec :
    (c : CacheCall) (cache : RegistryCache)
    → Admits c
    → IsValid cache
    → services (step c cache) ≡ spec c (services cache)
unfolding step spec get remove_name clear find
step-spec (adds reg) cache a h = add-spec reg cache h
step-spec (removes_ephemeral name ephemeral) cache a h =
    fun_ext (λ j. ephemeral-spec name ephemeral j cache)
step-spec (removes_registry reg) cache a h = fun_ext (λ j. get-remove_registry reg cache j h)
step-spec (removes_name name) cache a h = fun_ext (λ j. find-erase name j cache)
step-spec (removes_overdue t) cache a h =
    fun_ext (λ j. ap (find j) (remove_overdue-purge t cache h) ∙ find-purge t j cache h)
step-spec (replaces name l) cache a h = fun_ext (λ j. replace-spec name j l cache)
step-spec clears cache a h = refl
step-spec (loads now rs) cache a h = loads-spec now rs cache h

unfoldable pub run : List CacheCall → RegistryCache → RegistryCache
unfolding step
run [] cache = cache
run (c ∷ cs) cache = run cs (step c cache)

unfoldable pub spec_run : List CacheCall → Services → Services
unfolding spec
spec_run [] s = s
spec_run (c ∷ cs) s = spec_run cs (spec c s)

-- From a valid cache, any calls in any order leave for each service exactly the instances that the
-- contract names, where each list that is passed to `replace` is a complete list of distinct
-- endpoints of its service.
pub run-spec_run :
    (cs : List CacheCall) (cache : RegistryCache)
    → All Admits cs
    → IsValid cache
    → services (run cs cache) ≡ spec_run cs (services cache)
unfolding run spec_run
run-spec_run [] cache a h = refl
run-spec_run (c ∷ cs) cache a h =
    run-spec_run cs (step c cache) a.1 (step-IsValid c cache a.0 h)
    ∙ ap (spec_run cs) (step-spec c cache a.0 h)
