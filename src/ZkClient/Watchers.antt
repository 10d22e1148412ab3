-- ===== src/ZkClient/Watchers.antt =====
-- The watchers of core/ZkClient.cpp: what ZooKeeper calls with the type of an event, the state of
-- the session and a path. The client comes from the pool; where the pool has none, only the states
-- change.
use sfproxy.Prelude.{ℕ, ◌||◌, Option, none, some, [], ◌∷◌, if◌then◌else◌, Str, ℤ, eq_ℤ}
use sfproxy.Json.{Rapidjson}
use sfproxy.Zookeeper.{
  Zookeeper, created_event_def, deleted_event_def, changed_event_def, child_event_def,
  zoo_expired_session_state,
}
use sfproxy.Cache.{remove_name, remove_ephemeral}
use sfproxy.StateBag.{
  StateBag, key, new_state, replace_client_id_of, k_type_get_service, k_type_get_service_instance,
  k_type_get_root,
}
use sfproxy.ZkClient.{ZkClient, remove_state}
use sfproxy.ZkClient.Calls.{
  split_last, get_service_instance, get_service, get_all_services, create_enode,
}
use sfproxy.ZkClient.Connect.{connect_zk, dropping}

-- A watch for which no client was to be had.
unfoldable pub abandon : Str → ℕ → StateBag → StateBag
unfolding key new_state
abandon path type bag = replace_client_id_of (key (new_state path type)) 0 bag

-- Without a slash, the position wraps around to the start of the path.
unfoldable pub split_path : Str → Str × Str
unfolding split_last
split_path path = elim (split_last path) [
  | none ↦ (path, path)
  | some (service, []) ↦ (service, [])
  | some (service, c ∷ name) ↦ (service, name)
]

module _ (Z : Zookeeper) (J : Rapidjson) (now fuel : ℕ) where
  -- The switch over the type of the event: reading again, forgetting, or nothing.
  unfoldable pub dispatch :
      ℤ
      → (ZkClient Z → Option (ZkClient Z))
      → (ZkClient Z → ZkClient Z)
      → ZkClient Z
      → Option (ZkClient Z)
  dispatch type reread forget c =
      if eq_ℤ type created_event_def || (eq_ℤ type changed_event_def || eq_ℤ type child_event_def)
      then reread c
      else if eq_ℤ type deleted_event_def
      then some (forget c)
      else some c

  unfoldable pub forget_instance : Str → ZkClient Z → ZkClient Z
  unfolding split_path remove_state
  forget_instance path c =
      let (service, name) = split_path path in
      remove_state Z path k_type_get_service_instance
        (record c { cache = remove_ephemeral service name c.cache })

  unfoldable pub service_instance_watcher : ℤ → Str → ZkClient Z → Option (ZkClient Z)
  unfolding dispatch forget_instance connect_zk split_path
  service_instance_watcher type path c =
      dispatch type
        (λ d. dropping (
          get_service_instance Z J now (connect_zk Z J now fuel) (split_path path).0
            (split_path path).1 d))
        (forget_instance path) c

  -- The path of a service, or the root: its entry of the cache goes, and its watch of that type.
  unfoldable pub forget_path : ℕ → Str → ZkClient Z → ZkClient Z
  unfolding remove_state
  forget_path watch path c =
      remove_state Z path watch (record c { cache = remove_name path c.cache })

  unfoldable pub service_watcher : ℤ → Str → ZkClient Z → Option (ZkClient Z)
  unfolding dispatch forget_path connect_zk
  service_watcher type path c =
      dispatch type (λ d. dropping (get_service Z J now (connect_zk Z J now fuel) path d))
        (forget_path k_type_get_service path) c

  unfoldable pub root_watcher : ℤ → Str → ZkClient Z → Option (ZkClient Z)
  unfolding dispatch forget_path connect_zk
  root_watcher type path c =
      dispatch type (λ d. dropping (get_all_services Z J now (connect_zk Z J now fuel) path d))
        (forget_path k_type_get_root path) c

  -- A node that the proxy created has gone: it is created again, without its data.
  unfoldable pub create_enode_watcher : ℤ → ℤ → Str → ZkClient Z → Option (ZkClient Z)
  unfolding connect_zk
  create_enode_watcher type state path c =
      if eq_ℤ state zoo_expired_session_state || eq_ℤ type deleted_event_def
      then dropping (create_enode Z J now (connect_zk Z J now fuel) path [] c)
      else some c
