-- ===== src/Handler/Answers.antt =====
-- The answers of core/ServerHandler.cpp.
use sfproxy.Prelude.{
  ℕ, ◌≤◌, ◌<◌, ◌≡◌, refl, sym, ◌∙◌, subst, ◌↔◌, Bool, true, false, Option, none, some, List, [],
  ◌∷◌, ◌++◌, arith, Str, str_eq_refl,
}
use mathlib.Core.Option
use sfproxy.Registry.{Registry, serialize_all}
use sfproxy.Cache.{RegistryCache, is_nil, add}
use sfproxy.Cache
use sfproxy.Cache.Invariant.{IsValid}
use sfproxy.Cache.Lookup.{others, is_incomplete, get-add}
use sfproxy.Handler.{ServerHandler, service_path, answer, get, status}

snoc_some : (v : List Registry) (r : Registry) → is_nil (v ++ (r ∷ [])) ≡ false
snoc_some [] r = refl
snoc_some (x ∷ v) r = refl

-- Once a complete instance of a service is in a valid cache, `get` of that service answers with the
-- text of the service's other instances and this one, which comes last, and neither asks ZooKeeper
-- nor touches the skip buffer.
pub get-answers_added :
    (time_0 now_ms : ℕ) (service : Str) (h : ServerHandler) (reg : Registry)
    → IsValid h.cache
    → is_incomplete reg ≡ false
    → service_path h service ≡ reg.name
    → let after = record h { cache = add reg h.cache } in
      get time_0 now_ms service after ≡ (
        after,
        serialize_all time_0
            (others reg (Option.get_or (Cache.get reg.name h.cache) []) ++ (reg ∷ [])),
        false,
      )
unfolding get answer
get-answers_added time_0 now_ms service h reg valid complete same =
    let v : List Registry =
      others reg (Option.get_or (Cache.get reg.name h.cache) []) ++ (reg ∷ []) in
    let found : Cache.get (service_path h service) (add reg h.cache) ≡ some v =
      subst (λ j. Cache.get j (add reg h.cache) ≡ some v) (sym same)
        (get-add reg h.cache reg.name valid ∙ rw (complete, str_eq_refl reg.name) refl) in
    rw (found, snoc_some (others reg (Option.get_or (Cache.get reg.name h.cache) [])) reg) refl

-- `status` is 0 exactly if the pool is not empty and gives a connected client, the cache has a
-- service, at least two paths are watched, and all threads work.
pub status-eq-zero_iff :
    (pool_size cache_size watcher_size worker_count thread_count : ℕ) (client : Option Bool)
    → (status pool_size client cache_size watcher_size worker_count thread_count ≡ 0) ↔ (
        (0 < pool_size)
        × (client ≡ some true)
        × (0 < cache_size)
        × (2 ≤ watcher_size)
        × (thread_count ≤ worker_count))
unfolding status
status-eq-zero_iff pool_size cache_size watcher_size worker_count thread_count none = ground arith
status-eq-zero_iff pool_size cache_size watcher_size worker_count thread_count (some true) =
    ground arith
status-eq-zero_iff pool_size cache_size watcher_size worker_count thread_count (some false) =
    ground arith
