-- ===== src/ZkClient/Events.antt =====
-- The cache under the watchers of core/ZkClient.cpp.
use sfproxy.Prelude.{ℕ, ◌||◌, Option, [], Str, ℤ, eq_ℤ}
use sfproxy.Json.{Rapidjson}
use sfproxy.Zookeeper.{
  Zookeeper, created_event_def, deleted_event_def, changed_event_def, child_event_def,
  zoo_expired_session_state,
}
use sfproxy.Cache.{remove_name}
use sfproxy.Cache.Invariant.{erase-IsValid, remove_ephemeral-IsValid}
use sfproxy.StateBag.{k_type_get_service, k_type_get_root}
use sfproxy.ZkClient.{ZkClient, remove_state}
use sfproxy.ZkClient.Calls.{get_service_instance, get_service, get_all_services}
use sfproxy.ZkClient.Connect.{connect_zk, dropping}
use sfproxy.ZkClient.Watchers.{
  split_path, dispatch, forget_instance, forget_path, service_instance_watcher, service_watcher,
  root_watcher, create_enode_watcher,
}
use sfproxy.ZkClient.Survival.{connect_zk-IsSound}
use sfproxy.ZkClient.Validity.{
  IsSound, get_service_instance-Keeps, get_service-Keeps, get_all_services-Keeps,
  create_enode-Keeps, dropping-IsSound,
}
use sfproxy.Prelude.{Post, either}

module _ (Z : Zookeeper) (J : Rapidjson) (now fuel : ℕ) where
  dispatch-IsSound :
      (type : ℤ) (reread : ZkClient Z → Option (ZkClient Z)) (forget : ZkClient Z → ZkClient Z)
      (c : ZkClient Z)
      → Post (IsSound Z) (reread c)
      → IsSound Z (forget c)
      → IsSound Z c
      → Post (IsSound Z) (dispatch Z J now fuel type reread forget c)
  unfolding dispatch
  dispatch-IsSound type reread forget c r f h =
      either (Post (IsSound Z))
        (eq_ℤ type created_event_def || (eq_ℤ type changed_event_def || eq_ℤ type child_event_def))
        _ _ r (either (Post (IsSound Z)) (eq_ℤ type deleted_event_def) _ _ f h)

  -- What the recursion of `connect_zk` leaves behind.
  rest : (c : ZkClient Z) → IsSound Z c → Post (IsSound Z) (connect_zk Z J now fuel c)
  rest c h = connect_zk-IsSound Z J now fuel c h

  -- Whatever ZooKeeper answers and whatever events it sends: where a watcher returns, a valid cache has
  -- stayed valid; and so has it where `connect_zk` returns.
  pub watchers-IsSound :
      (type state : ℤ) (path : Str) (c : ZkClient Z)
      → IsSound Z c
      → Post (IsSound Z) (connect_zk Z J now fuel c)
        × Post (IsSound Z) (service_instance_watcher Z J now fuel type path c)
        × Post (IsSound Z) (service_watcher Z J now fuel type path c)
        × Post (IsSound Z) (root_watcher Z J now fuel type path c)
        × Post (IsSound Z) (create_enode_watcher Z J now fuel type state path c)
  unfolding service_instance_watcher service_watcher root_watcher create_enode_watcher
      forget_instance forget_path remove_state remove_name
  watchers-IsSound type state path c h =
      let connect = connect_zk Z J now fuel in
      (
        rest c h,
        dispatch-IsSound type
            (λ d.
              dropping
                (get_service_instance Z J now connect (split_path path).0 (split_path path).1 d))
            (forget_instance Z J now fuel path) c
            (dropping-IsSound Z J now connect rest _ (
              get_service_instance-Keeps Z J now connect rest (split_path path).0
                (split_path path).1 c h))
            (remove_ephemeral-IsValid (split_path path).0 (split_path path).1 c.cache h) h,
        dispatch-IsSound type (λ d. dropping (get_service Z J now connect path d))
            (forget_path Z J now fuel k_type_get_service path) c
            (dropping-IsSound Z J now connect rest _
              (get_service-Keeps Z J now connect rest path c h))
            (erase-IsValid path c.cache h) h,
        dispatch-IsSound type (λ d. dropping (get_all_services Z J now connect path d))
            (forget_path Z J now fuel k_type_get_root path) c
            (dropping-IsSound Z J now connect rest _
              (get_all_services-Keeps Z J now connect rest path c h))
            (erase-IsValid path c.cache h) h,
        either (Post (IsSound Z))
            (eq_ℤ state zoo_expired_session_state || eq_ℤ type deleted_event_def) _ _
            (dropping-IsSound Z J now connect rest _
              (create_enode-Keeps Z J now connect rest path [] c h))
            h,
      )
