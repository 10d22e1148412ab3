-- ===== src/Server/Watch.antt =====
-- The watchers of core/ZkClient.cpp as ZooKeeper calls them: with the pool, from which they take a client.
use sfproxy.Prelude.{ℕ, Bool, true, ◌||◌, Option, none, some, if◌then◌else◌, ◌>>=◌, Str, ℤ, eq_ℤ}
use sfproxy.Json.{Rapidjson}
use sfproxy.Zookeeper.{Zookeeper, zoo_expired_session_state, deleted_event_def}
use sfproxy.StateBag.{
  k_type_create_ephereral, k_type_get_service, k_type_get_service_instance, k_type_get_root,
}
use sfproxy.ZkClient.{ZkClient}
use sfproxy.ZkClient.Watchers.{
  abandon, service_instance_watcher, service_watcher, root_watcher, create_enode_watcher,
}
use sfproxy.Server.{Server, on_client, open_one, close_one}

module _ (Z : Zookeeper) (J : Rapidjson) (fuel : ℕ) where
  -- A watcher has no result; `on_client` takes an operation with one.
  abbrev pub with_result :
      (ZkClient Z → Option (ZkClient Z)) → ZkClient Z → Option (ZkClient Z × Bool)
  with_result op c = do d ← op c; some (d, true)

  -- `op` with a client of the pool; without one, no client has the watch.
  unfoldable pub watched :
      ℕ → ℕ → ℕ → (ZkClient Z → Option (ZkClient Z)) → Str → Server Z → Option (Server Z)
  unfolding open_one close_one on_client abandon
  watched fresh now watch op path s = do
    (s1, o) ← open_one Z J fuel fresh now s
    elim o [
      | none ↦
          some (record s1 {
            pool = record s1.pool { state_bag = abandon path watch s1.pool.state_bag };
          })
      | some a ↦ do (s', _) ← on_client Z (with_result op) a s1; close_one Z a s'
    ]

  unfoldable pub service_instance_event : ℕ → ℕ → ℤ → Str → Server Z → Option (Server Z)
  unfolding watched service_instance_watcher
  service_instance_event fresh now type path =
      watched fresh now k_type_get_service_instance
        (service_instance_watcher Z J now fuel type path) path

  unfoldable pub service_event : ℕ → ℕ → ℤ → Str → Server Z → Option (Server Z)
  unfolding watched service_watcher
  service_event fresh now type path =
      watched fresh now k_type_get_service (service_watcher Z J now fuel type path) path

  unfoldable pub root_event : ℕ → ℕ → ℤ → Str → Server Z → Option (Server Z)
  unfolding watched root_watcher
  root_event fresh now type path =
      watched fresh now k_type_get_root (root_watcher Z J now fuel type path) path

  -- The test comes before a client is taken.
  unfoldable pub create_enode_event : ℕ → ℕ → ℤ → ℤ → Str → Server Z → Option (Server Z)
  unfolding watched create_enode_watcher
  create_enode_event fresh now type state path s =
      if eq_ℤ state zoo_expired_session_state || eq_ℤ type deleted_event_def
      then watched fresh now k_type_create_ephereral
          (create_enode_watcher Z J now fuel type state path) path s
      else some s
