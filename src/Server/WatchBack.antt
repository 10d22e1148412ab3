-- ===== src/Server/WatchBack.antt =====
-- The client that a watcher of core/ZkClient.cpp takes from the pool.
use sfproxy.Prelude.{ℕ, ◌||◌, Option, none, some, ◌>>=◌, Str, ℤ, eq_ℤ}
use sfproxy.Prelude.{Post, Post-bind, either}
use sfproxy.Json.{Rapidjson}
use sfproxy.Zookeeper.{Zookeeper, zoo_expired_session_state, deleted_event_def}
use sfproxy.ZkClient.{ZkClient}
use sfproxy.ZkClient.Events.{watchers-IsSound}
use sfproxy.ZkClient.Validity.{IsSound, IsSoundFor}
use sfproxy.Server.{Server, on_client, open_one, close_one}
use sfproxy.Server.Borrow.{Back, Opened}
use sfproxy.Server.Safety.{IsReady, opened, close_after, untouched}
use sfproxy.StateBag.{k_type_create_ephereral}
use sfproxy.ZkClient.Watchers.{abandon, create_enode_watcher}
use sfproxy.Server.Watch.{with_result, watched, create_enode_event}

module _ (Z : Zookeeper) (J : Rapidjson) (fuel : ℕ) where
  pub watched-Back :
      (fresh now watch : ℕ) (op : ZkClient Z → Option (ZkClient Z)) (path : Str) (s : Server Z)
      → ((c : ZkClient Z) → IsSound Z c → Post (IsSound Z) (op c))
      → IsReady Z fresh s
      → Post (Back Z s.pool) (watched Z J fuel fresh now watch op path s)
  unfolding watched
  watched-Back fresh now watch op path s sound r =
      Post-bind (Opened Z s.pool) (Back Z s.pool) (open_one Z J fuel fresh now s) _
        (opened Z J fuel fresh now s r) (λ (s1, o) h. taken o s1 h)
    where
      taken :
          (o : Option ℕ) (s1 : Server Z)
          → Opened Z s.pool (s1, o)
          → Post (Back Z s.pool) (elim o [
            | none ↦ some (record s1 {
              pool = record s1.pool { state_bag = abandon path watch s1.pool.state_bag };
            })
            | some a ↦ do (s', _) ← on_client Z (with_result Z J fuel op) a s1; close_one Z a s'
          ])
      taken none s1 h = absurd h
      taken (some a) s1 h =
          close_after Z J fuel (with_result Z J fuel op) s.pool a s1
            (λ c k. Post-bind (IsSound Z) (IsSoundFor Z) (op c) _ (sound c k) (λ d m. m)) h

  pub create_enode_event-Back :
      (fresh now : ℕ) (type state : ℤ) (path : Str) (s : Server Z)
      → IsReady Z fresh s
      → Post (Back Z s.pool) (create_enode_event Z J fuel fresh now type state path s)
  unfolding create_enode_event
  create_enode_event-Back fresh now type state path s r =
      either (Post (Back Z s.pool))
        (eq_ℤ state zoo_expired_session_state || eq_ℤ type deleted_event_def) _ (some s)
        (watched-Back fresh now k_type_create_ephereral
          (create_enode_watcher Z J now fuel type state path) path s
          (λ c h. (watchers-IsSound Z J now fuel type state path c h).4) r)
        (untouched Z fresh s r)
