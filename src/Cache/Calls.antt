-- ===== src/Cache/Calls.antt =====
-- The calls of the cache of core/RegistryCache.cpp, in any order.
use sfproxy.Prelude.{ℕ, List, Str}
use sfproxy.Registry.{Registry}
use sfproxy.Cache.{
  RegistryCache, add, remove_ephemeral, remove_registry, remove_name, collect, remove_overdue,
  replace, clear, add_loaded,
}
use sfproxy.Cache.Bucket.{IsBucket}
use sfproxy.Cache.Invariant.{
  IsValid, erase-IsValid, add-IsValid, remove_registry-IsValid, remove_all-IsValid,
  remove_ephemeral-IsValid, add_loaded-IsValid, replace-IsValid,
}

-- The operations that change the cache.
pub data CacheCall : Type 0 where
  adds : Registry → CacheCall
  removes_ephemeral : Str → Str → CacheCall
  removes_registry : Registry → CacheCall
  removes_name : Str → CacheCall
  removes_overdue : ℕ → CacheCall
  replaces : Str → List Registry → CacheCall
  clears : CacheCall
  loads : ℕ → List Registry → CacheCall

-- `replace` trusts its list; the other operations take any argument.
abbrev pub Admits : CacheCall → Type 0
Admits (replaces name l) = IsBucket name l
Admits _ = Unit

unfoldable pub step : CacheCall → RegistryCache → RegistryCache
unfolding add remove_ephemeral remove_registry remove_name remove_overdue replace clear add_loaded
step (adds reg) cache = add reg cache
step (removes_ephemeral name ephemeral) cache = remove_ephemeral name ephemeral cache
step (removes_registry reg) cache = remove_registry reg cache
step (removes_name name) cache = remove_name name cache
step (removes_overdue timestamp_ms) cache = remove_overdue timestamp_ms cache
step (replaces name l) cache = replace name l cache
step clears cache = clear cache
step (loads now rs) cache = add_loaded now rs cache

-- Every operation keeps the invariant of the cache; `replace` does so for a list that is itself a
-- complete list of distinct endpoints of the service.
pub step-IsValid :
    (c : CacheCall) (cache : RegistryCache) → Admits c → IsValid cache → IsValid (step c cache)
unfolding step remove_name remove_overdue clear
step-IsValid (adds reg) cache a h = add-IsValid reg cache h
step-IsValid (removes_ephemeral name ephemeral) cache a h =
    remove_ephemeral-IsValid name ephemeral cache h
step-IsValid (removes_registry reg) cache a h = remove_registry-IsValid reg cache h
step-IsValid (removes_name name) cache a h = erase-IsValid name cache h
step-IsValid (removes_overdue timestamp_ms) cache a h =
    remove_all-IsValid (collect timestamp_ms cache) cache h
step-IsValid (replaces name l) cache a h = replace-IsValid name l cache a h
step-IsValid clears cache a h = record { sorted = tt; buckets = tt }
step-IsValid (loads now rs) cache a h = add_loaded-IsValid now rs cache h
