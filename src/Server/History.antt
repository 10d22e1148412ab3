-- ===== src/Server/History.antt =====
-- What a server of core/ServerHandler.cpp keeps between its requests, tasks and events.
use sfproxy.Prelude.{
  ℕ, ◌≤◌, ◌≡◌, refl, sym, ap, ◌∙◌, subst, Bool, false, Option, none, some, [], arith, ◌>>=◌, length,
  Str, ℤ, pos,
}
use sfproxy.Prelude.{Post, Post-bind, Post-known, Post-both, Post-map, either}
use sfproxy.Json.{Rapidjson}
use sfproxy.Zookeeper.{Zookeeper}
use sfproxy.Pool.{Pool, new_pool, reset}
use sfproxy.Pool.Invariant.{new_pool-IsValid}
use sfproxy.Pool.History.{new_pool-IsBounded, reset-IsGood, some_inj}
use sfproxy.Pool.Reset.{reset-empty}
use sfproxy.Cache.{clear}
use sfproxy.Cache.Invariant.{IsValid}
use sfproxy.ZkClient.Events.{watchers-IsSound}
use sfproxy.FileCache.{Disk}
use sfproxy.Handler
use sfproxy.Handler.{answer}
use sfproxy.Server.{Server, new_server}
use sfproxy.Server.Borrow.{Back}
use sfproxy.Server.Safety.{get_service_from_zk-Back, keep_awake-Back}
use sfproxy.Server.Tasks.{server_status, warm, reset_server}
use sfproxy.Server.GiveBack.{
  server_status-Back, save_task-Back, check-Back, warm-Back, register_self-Back,
}
use sfproxy.StateBag.{k_type_get_service, k_type_get_service_instance, k_type_get_root}
use sfproxy.ZkClient.Watchers.{service_instance_watcher, service_watcher, root_watcher}
use sfproxy.Server.Watch.{service_instance_event, service_event, root_event}
use sfproxy.Server.Steps.{
  cleared, ServerStep, requested, fetched, kept_awake, asked, saved, checked, warmed, registered,
  restarted, instance_changed, service_changed, root_changed, node_changed, ServerReaches, starts,
  follows,
}
use sfproxy.Server.Quiet.{IsQuiet, ready, quiet_again, returned}
use sfproxy.Server.WatchBack.{watched-Back, create_enode_event-Back}

module _ (Z : Zookeeper) (J : Rapidjson) (fuel : ℕ) where
  requested-IsQuiet :
      (time_0 now_ms : ℕ) (service : Str) (s : Server Z)
      → IsQuiet Z s
      → IsQuiet Z (record s { handler = (Handler.get time_0 now_ms service s.handler).0 })
  unfolding Handler.get
  requested-IsQuiet time_0 now_ms service s q = record {
    good = q.good;
    valid =
        either (λ (x : Handler.ServerHandler × Str × Bool). IsValid x.0.cache) _ _ _ q.valid
          q.valid;
    unlent = q.unlent;
    one = q.one;
    bound = q.bound;
  }

  cleared-IsQuiet :
      (rounds : ℕ) (p : Pool) (s : Server Z)
      → IsQuiet Z s
      → reset rounds s.pool ≡ some p
      → IsQuiet Z (cleared Z J fuel p s)
  unfolding clear
  cleared-IsQuiet rounds p s q e =
      let (r, found, _, l, i, _, _, _, m) = reset-empty rounds s.pool q.good.0 in
      let same : r ≡ p = some_inj (sym found ∙ e) in
      record {
        good = reset-IsGood rounds s.pool p e q.good;
        valid = record { sorted = tt; buckets = tt };
        unlent = subst (λ x. x.lent ≡ []) same l;
        one = subst (λ x. length x.idle ≤ 1) same (omega (arith, ap length i));
        bound = subst (λ x. x.max_client ≡ s.pool.max_client) same m ∙ q.bound;
      }

  restarted-IsQuiet :
      (rounds fresh fresh' start now later workers threads : ℕ) (s : Server Z)
      → IsQuiet Z s
      → Post (λ (p : Pool). p.heap fresh ≡ none) (reset rounds s.pool)
      → Post
          (λ (s1 : Server Z). s1.pool.heap fresh' ≡ none)
          (do p ← reset rounds s.pool; warm Z J fuel fresh start now later (cleared Z J fuel p s))
      → Post
          (λ (x : Server Z × Option Str). IsQuiet Z x.0)
          (reset_server Z J fuel rounds fresh fresh' start now later workers threads s)
  unfolding reset_server
  restarted-IsQuiet rounds fresh fresh' start now later workers threads s q free free' =
      let (p, e, _, _, _, _, _, _, _) = reset-empty rounds s.pool q.good.0 in
      let clean = cleared-IsQuiet rounds p s q e in
      let warm_quiet =
        Post-map (Back Z p) (IsQuiet Z) (warm Z J fuel fresh start now later (cleared Z J fuel p s))
          (λ t b. quiet_again Z (cleared Z J fuel p s) t clean b)
          (warm-Back Z J fuel fresh start now later (cleared Z J fuel p s) (
            ready Z fresh (cleared Z J fuel p s) clean
              (Post-known (λ (x : Pool). x.heap fresh ≡ none) _ p e free))) in
      either (Post (λ (x : Server Z × Option Str). IsQuiet Z x.0)) s.resetting (some (s, none)) _ q
        (rw e (
          Post-bind (λ (s1 : Server Z). IsQuiet Z s1 × (s1.pool.heap fresh' ≡ none))
            (λ (x : Server Z × Option Str). IsQuiet Z x.0)
            (warm Z J fuel fresh start now later (cleared Z J fuel p s)) _
            (Post-both (IsQuiet Z) (λ (s1 : Server Z). s1.pool.heap fresh' ≡ none) _ warm_quiet
              (rw e at free'))
            (λ s1 (k, f).
              Post-bind (λ (x : Server Z × ℕ). Back Z s1.pool x.0)
                (λ (x : Server Z × Option Str). IsQuiet Z x.0)
                (server_status Z J fuel fresh' later workers threads s1) _
                (server_status-Back Z J fuel fresh' later workers threads s1
                  (ready Z fresh' s1 k f))
                (λ (s2, bits) b. settled s2 (quiet_again Z s1 s2 k b)))))
    where
      settled : (t : Server Z) → IsQuiet Z t → IsQuiet Z (record t { resetting = false })
      settled t k = record {
        good = k.good;
        valid = k.valid;
        unlent = k.unlent;
        one = k.one;
        bound = k.bound;
      }

  new_server-IsQuiet :
      (disk : Disk) (world : Z.World) (hostname : Str) (port : ℤ)
      → IsQuiet Z (new_server Z disk world hostname port)
  unfolding new_server new_pool
  new_server-IsQuiet disk world hostname port = record {
    good = (new_pool-IsValid, new_pool-IsBounded);
    valid = record { sorted = tt; buckets = tt };
    unlent = refl;
    one = omega arith;
    bound = refl;
  }

  step-IsQuiet : {s t : Server Z} → ServerStep Z J fuel s t → IsQuiet Z s → IsQuiet Z t
  unfolding service_instance_event service_event root_event
  step-IsQuiet {s} {t} (requested time_0 now_ms service) q =
      requested-IsQuiet time_0 now_ms service s q
  step-IsQuiet {s} {t} (fetched fresh now path free e) q =
      returned Z s t _ q e
        (get_service_from_zk-Back Z J fuel fresh now path s (ready Z fresh s q free))
  step-IsQuiet {s} {t} (kept_awake fresh now free e) q =
      returned Z s t _ q e (keep_awake-Back Z J fuel fresh now s (ready Z fresh s q free))
  step-IsQuiet {s} {t} (asked fresh now workers threads bits free e) q = quiet_again Z s t q (
      Post-known (λ (x : Server Z × ℕ). Back Z s.pool x.0) _ (t, bits) e
        (server_status-Back Z J fuel fresh now workers threads s (ready Z fresh s q free)))
  step-IsQuiet {s} {t} (saved time_0 fresh now workers threads free e) q =
      returned Z s t _ q e
        (save_task-Back Z J fuel time_0 fresh now workers threads s (ready Z fresh s q free))
  step-IsQuiet {s} {t} (checked fresh start now later free e) q =
      returned Z s t _ q e (check-Back Z J fuel fresh start now later s (ready Z fresh s q free))
  step-IsQuiet {s} {t} (warmed fresh start now later free e) q =
      returned Z s t _ q e (warm-Back Z J fuel fresh start now later s (ready Z fresh s q free))
  step-IsQuiet {s} {t} (registered fresh now free e) q =
      returned Z s t _ q e (register_self-Back Z J fuel fresh now s (ready Z fresh s q free))
  step-IsQuiet {s} {t}
        (restarted rounds fresh fresh' start now later workers threads r free free' e) q =
      Post-known (λ (x : Server Z × Option Str). IsQuiet Z x.0) _ (t, r) e
        (restarted-IsQuiet rounds fresh fresh' start now later workers threads s q free free')
  step-IsQuiet {s} {t} (instance_changed fresh now type path free e) q = returned Z s t _ q e (
      watched-Back Z J fuel fresh now k_type_get_service_instance
        (service_instance_watcher Z J now fuel type path) path s
        (λ c h. (watchers-IsSound Z J now fuel type (pos 0) path c h).1) (ready Z fresh s q free))
  step-IsQuiet {s} {t} (service_changed fresh now type path free e) q = returned Z s t _ q e (
      watched-Back Z J fuel fresh now k_type_get_service (service_watcher Z J now fuel type path)
        path s (λ c h. (watchers-IsSound Z J now fuel type (pos 0) path c h).2)
        (ready Z fresh s q free))
  step-IsQuiet {s} {t} (root_changed fresh now type path free e) q = returned Z s t _ q e (
      watched-Back Z J fuel fresh now k_type_get_root (root_watcher Z J now fuel type path) path s
        (λ c h. (watchers-IsSound Z J now fuel type (pos 0) path c h).3) (ready Z fresh s q free))
  step-IsQuiet {s} {t} (node_changed fresh now type state path free e) q =
      returned Z s t _ q e
        (create_enode_event-Back Z J fuel fresh now type state path s (ready Z fresh s q free))

  -- Whatever ZooKeeper answers: where the requests, the tasks and the events of a new server run one
  -- after another, each to its end, no client is lent between them, the pool is valid and has at most one
  -- client, and the cache is valid.
  pub ServerReaches-IsQuiet : (s : Server Z) → ServerReaches Z J fuel s → IsQuiet Z s
  ServerReaches-IsQuiet s (starts disk world hostname port) =
      new_server-IsQuiet disk world hostname port
  ServerReaches-IsQuiet t (follows {s} r step) = step-IsQuiet step (ServerReaches-IsQuiet s r)
