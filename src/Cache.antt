-- ===== src/Cache.antt =====
-- core/RegistryCache.h and core/RegistryCache.cpp: the instances of each service, by the path of
-- the service. Each operation holds the mutex, so it is one step here; `remove_overdue` holds it
-- for its scan and for each removal by themselves.
pub mod Bucket
pub mod Invariant
pub mod Calls
pub mod Lookup
pub mod Overdue
pub mod Race
pub mod Rebuild
pub mod Storage
pub mod Refinement
pub mod Reload
pub mod Restart
pub mod Tests
use sfproxy.Prelude.{
  ℕ, zero, suc, ◌+◌, ◌-◌, ◌*◌, ◌/◌, ◌%◌, ◌^◌, ◌≤◌, ◌<◌, ◌≡◌, refl, sym, ap, ◌∙◌, subst, ◌≢◌, ◌↔◌,
  ◌⊎◌, inl, inr, Bool, true, false, ◌&&◌, ◌||◌, not, Option, none, some, List, [], ◌∷◌, ◌++◌, map,
  arith, ltb, leb, ◌==◌, if◌then◌else◌, ◌>>=◌, ◌>>◌, ltb→lt, lt→ltb, ltb-false, ==_iff, Bool-cases,
  Option-cases, length, length-append, keep_if, length-keep_if-le, keep_if-append, All, All-append,
  All-keep_if, Str, codes, str_eq, str_lt, str_eq_iff, str_eq_refl, ℤ, pos, negsuc, pos_part,
  neg_part, sub_ℕ, ◌+ℤ◌, ltb_ℤ, eq_ℤ,
}
use sfproxy.OrderedMap.{Map, find, insert, erase, modify, values}
use sfproxy.Registry.{Registry, is_empty, equals, serialize_all, unserialize}
use sfproxy.Json.{Rapidjson}

-- `RMap`.
abbrev pub RegistryCache : Type 0
RegistryCache = Map (List Registry)

-- The loops that erase the first match and stop.
unfoldable pub erase_first : (Registry → Bool) → List Registry → List Registry
erase_first p [] = []
erase_first p (r ∷ rs) = if p r then rs else r ∷ erase_first p rs

-- The endpoint of `r` taken out, and `r` put at the end.
unfoldable pub renew : Registry → List Registry → List Registry
unfolding erase_first
renew reg v = erase_first (λ r. equals r reg) v ++ (reg ∷ [])

unfoldable pub add : Registry → RegistryCache → RegistryCache
unfolding renew
add reg cache =
    if is_empty reg.name || (is_empty reg.host || is_empty reg.ephemeral)
    then cache
    else elim (find reg.name cache) [
      | none ↦ insert reg.name (reg ∷ []) cache
      | some _ ↦ modify reg.name (renew reg) cache
    ]

-- `remove(name, ephemeral)`: a missing name throws inside and changes nothing.
unfoldable pub remove_ephemeral : Str → Str → RegistryCache → RegistryCache
unfolding erase_first
remove_ephemeral name ephemeral cache =
    if is_empty name || is_empty ephemeral
    then cache
    else modify name (erase_first (λ r. str_eq r.ephemeral ephemeral)) cache

abbrev pub is_nil {ℓ} : {A : Type ℓ} → List A → Bool
is_nil [] = true
is_nil (x ∷ xs) = false

-- `remove(reg)`: the service goes with its last instance.
unfoldable pub remove_registry : Registry → RegistryCache → RegistryCache
unfolding erase_first
remove_registry reg cache = elim (find reg.name cache) [
  | none ↦ cache
  | some v ↦
      let rest = erase_first (λ r. equals r reg) v in
      if is_nil rest then erase reg.name cache else modify reg.name (λ _. rest) cache
]

-- `remove(name)`.
unfoldable pub remove_name : Str → RegistryCache → RegistryCache
remove_name name cache = erase name cache

-- The scan of `remove_overdue`.
unfoldable pub overdue : ℕ → List Registry → List Registry
overdue timestamp_ms v = keep_if (λ r. ltb r.mtime timestamp_ms) v

unfoldable pub collect : ℕ → RegistryCache → List Registry
unfolding overdue
collect timestamp_ms [] = []
collect timestamp_ms ((name, v) ∷ cache) = overdue timestamp_ms v ++ collect timestamp_ms cache

-- Its second loop.
unfoldable pub remove_all : List Registry → RegistryCache → RegistryCache
unfolding remove_registry
remove_all [] cache = cache
remove_all (r ∷ v_del) cache = remove_all v_del (remove_registry r cache)

unfoldable pub remove_overdue : ℕ → RegistryCache → RegistryCache
unfolding collect remove_all
remove_overdue timestamp_ms cache = remove_all (collect timestamp_ms cache) cache

unfoldable pub replace : Str → List Registry → RegistryCache → RegistryCache
replace name l cache =
    insert name l (elim (find name cache) [ none ↦ cache | some _ ↦ modify name (λ _. []) cache ])

unfoldable pub clear : RegistryCache → RegistryCache
clear cache = []

-- `exists`.
unfoldable pub exists : Str → RegistryCache → Bool
exists name cache = elim (find name cache) [ none ↦ false | some _ ↦ true ]

-- `get`: the null pointer is `none`.
unfoldable pub get : Str → RegistryCache → Option (List Registry)
get name cache = find name cache

unfoldable pub size : RegistryCache → ℕ
size cache = length cache

-- `empty`, which looks at the whole cache whatever the name.
unfoldable pub empty : Str → RegistryCache → Bool
empty name cache = length cache == 0

-- The instances of all services, in the order of the services.
unfoldable pub all_instances : RegistryCache → List Registry
all_instances [] = []
all_instances ((name, v) ∷ cache) = v ++ all_instances cache

-- The text that `save` writes.
unfoldable pub save_text : ℕ → RegistryCache → Str
unfolding all_instances
save_text time_0 cache = serialize_all time_0 (all_instances cache)

-- What `from_file` writes into an instance that it has read.
unfoldable pub as_loaded : ℕ → Registry → Registry
as_loaded now r = record r { ctime = now; mtime = now; ephemeral = codes "from_file" }

-- The loop of `from_file`.
unfoldable pub add_loaded : ℕ → List Registry → RegistryCache → RegistryCache
unfolding add as_loaded
add_loaded now [] cache = cache
add_loaded now (r ∷ rs) cache = add_loaded now rs (add (as_loaded now r) cache)

-- `from_file`, given what was read (`none` where the file did not open or is empty). The outer
-- `none` of the result is a failed assertion of the parser.
unfoldable pub from_file : Rapidjson → ℕ → Option Str → RegistryCache → Option RegistryCache
unfolding add_loaded
from_file J now none cache = some cache
from_file J now (some content) cache = do
  v ← unserialize J now content
  some (add_loaded now v cache)
