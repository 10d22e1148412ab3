-- ===== src/Cache/Lookup.antt =====
-- What `get` finds after the operations of core/RegistryCache.cpp.
use sfproxy.Prelude.{
  ◌≡◌, ◌∙◌, inl, inr, Bool, false, ◌||◌, not, Option, none, some, List, [], ◌∷◌, ◌++◌, arith,
  if◌then◌else◌, Bool-cases, Option-cases, keep_if, Str, str_eq, str_eq_iff, str_eq_refl,
}
use mathlib.Core.Option
use sfproxy.OrderedMap.{find, modify}
use sfproxy.OrderedMap.Laws.{find-insert, find-erase, find-modify}
use sfproxy.Registry.{Registry, is_empty, equals}
use sfproxy.Cache.{RegistryCache, renew, add, remove_registry, replace, get, exists, is_nil}
use sfproxy.Cache.Bucket.{IsBucket, erase_first-keep_if}
use sfproxy.Cache.Invariant.{IsValid, find-IsBucket}

-- The instances with another endpoint.
abbrev pub others : Registry → List Registry → List Registry
others reg = keep_if (λ r. not (equals r reg))

abbrev pub is_incomplete : Registry → Bool
is_incomplete reg = is_empty reg.name || (is_empty reg.host || is_empty reg.ephemeral)

renew-others :
    (reg : Registry) (v : List Registry)
    → IsBucket reg.name v
    → renew reg v ≡ others reg v ++ (reg ∷ [])
unfolding renew
renew-others reg v b = rw (erase_first-keep_if reg v b.distinct)

find-add :
    (reg : Registry) (cache : RegistryCache) (j : Str)
    → is_incomplete reg ≡ false
    → IsValid cache
    → find j (add reg cache) ≡ (
        if str_eq reg.name j
        then some (others reg (Option.get_or (find reg.name cache) []) ++ (reg ∷ []))
        else find j cache)
unfolding add
find-add reg cache j good h = rw good (elim (Option-cases (find reg.name cache)) [
  | inl e ↦ rw (e, add) (find-insert reg.name j (reg ∷ []) cache ∙ rw e)
  | inr (v, e) ↦
      rw (e, add)
        (find-modify reg.name j (renew reg) cache
          ∙ ground (
            arith,
            str_eq_iff reg.name j,
            renew-others reg v (find-IsBucket reg.name v cache h.buckets e),
          ))
])

-- `add` leaves the cache alone if a field is missing. Otherwise the service of the instance then has
-- its other endpoints as before and the instance itself at the end, so each endpoint stands once
-- with the newest data; no other service changes.
pub get-add :
    (reg : Registry) (cache : RegistryCache) (j : Str)
    → IsValid cache
    → get j (add reg cache) ≡ (
        if is_incomplete reg
        then get j cache
        else if str_eq reg.name j
        then some (others reg (Option.get_or (get reg.name cache) []) ++ (reg ∷ []))
        else get j cache)
unfolding get
get-add reg cache j h = elim (Bool-cases (is_incomplete reg)) [
  | inl bad ↦ rw bad (unfold add in (rw bad))
  | inr good ↦ rw good (find-add reg cache j good h)
]

-- No service is kept for the sake of an empty list.
abbrev pub some_if_any : List Registry → Option (List Registry)
some_if_any v = if is_nil v then none else some v

abbrev pub bind_any :
    Option (List Registry) → (List Registry → List Registry) → Option (List Registry)
bind_any none f = none
bind_any (some v) f = some_if_any (f v)

-- `remove(reg)` takes out the endpoint of `reg` and nothing else, and drops the service with its
-- last instance.
pub get-remove_registry :
    (reg : Registry) (cache : RegistryCache) (j : Str)
    → IsValid cache
    → get j (remove_registry reg cache)
      ≡ (if str_eq reg.name j then bind_any (get reg.name cache) (others reg) else get j cache)
unfolding get remove_registry
get-remove_registry reg cache j h = elim (Option-cases (find reg.name cache)) [
  | inl e ↦ rw (e, remove_registry) (ground (arith, str_eq_iff reg.name j))
  | inr (v, e) ↦
      rw
        (
          e,
          remove_registry,
          erase_first-keep_if reg v (find-IsBucket reg.name v cache h.buckets e).distinct,
        )
        (ground (
          arith,
          str_eq_iff reg.name j,
          find-erase reg.name j cache,
          find-modify reg.name j (λ _. others reg v) cache,
        ))
]

-- `replace` stores the list for a service that the cache lacks. Where the cache has the service, its
-- list is emptied and the new one is not stored, since an insertion leaves a present key alone.
pub get-replace :
    (name j : Str) (l : List Registry) (cache : RegistryCache)
    → get j (replace name l cache)
      ≡ (if str_eq name j then (if exists name cache then some [] else some l) else get j cache)
unfolding get replace exists
get-replace name j l cache = elim (Option-cases (find name cache)) [
  | inl e ↦ rw (e, replace, exists) (find-insert name j l cache ∙ rw e)
  | inr (v, e) ↦
      rw (e, replace, exists)
        (find-insert name j l (modify name (λ _. []) cache)
          ∙ ground (
            arith,
            str_eq_refl name,
            str_eq_iff name j,
            find-modify name name (λ _. []) cache,
            find-modify name j (λ _. []) cache,
          ))
]
