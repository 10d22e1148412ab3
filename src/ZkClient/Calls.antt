-- ===== src/ZkClient/Calls.antt =====
-- The operations of core/ZkClient.cpp that read and create nodes. `connect` is what they do with a
-- client that is not connected: `connect_zk`.
use sfproxy.Prelude.{
  ℕ, ◌/◌, Bool, true, false, ◌&&◌, Option, none, some, List, [], ◌∷◌, ◌++◌, map, ◌==◌,
  if◌then◌else◌, ◌>>=◌, Str, codes, ℤ, eq_ℤ,
}
use sfproxy.Json.{Rapidjson}
use sfproxy.Zookeeper.{Zookeeper, zok, zconnectionloss, zinvalidstate, znonode, znodeexists}
use sfproxy.Registry.{Registry, empty_registry}
use sfproxy.Cache.{remove_name}
use sfproxy.Cache
use sfproxy.StateBag.{
  key, new_state, replace_client_id_of, k_type_create_ephereral, k_type_get_service,
  k_type_get_service_instance, k_type_get_root,
}
use sfproxy.ZkClient.{
  ZkClient, buffer_size, c_string, from_node, set_connected, on_session_timeout, save_state,
  remove_state, wget, wget_children, create_node,
}

abbrev pub slash : Str
slash = codes "/"

-- The text before the last slash, and the text from it on.
unfoldable pub split_last : Str → Option (Str × Str)
split_last [] = none
split_last (c ∷ path) = elim (split_last path) [
  | some (service, name) ↦ some (c ∷ service, name)
  | none ↦ if c == b'/' then some ([], c ∷ path) else none
]

module _ (Z : Zookeeper) (J : Rapidjson) (now : ℕ)
    (connect : ZkClient Z → Option (ZkClient Z)) where
  -- The first lines of each operation; the flag is false where the operation gives up.
  unfoldable pub ensure : ZkClient Z → Option (ZkClient Z × Bool)
  ensure c = elim c.connected [
    | true ↦ some (c, true)
    | false ↦ do c' ← connect c; some (c', c'.connected && c'.handle)
  ]

  -- What `get_service_instance` knows of an instance before it looks at the data.
  abbrev pub blank : Str → Str → ℕ → Registry
  blank service name ctime = record (empty_registry now) {
    name = service;
    ctime = ctime / 1000;
    ephemeral = name;
  }

  -- The instance that a node's data describes, put into the cache.
  unfoldable pub add_node : Str → Str → Str → ℕ → ZkClient Z → Option (ZkClient Z)
  unfolding c_string from_node empty_registry
  add_node service name text ctime c = do
    s ← c_string buffer_size text
    r ← from_node J s (blank service name ctime)
    some (record c { cache = Cache.add r c.cache })

  -- What `get_service_instance` does with the answer.
  unfoldable pub instance_read : Str → Str → ZkClient Z × ℤ × Str × ℕ → Option (ZkClient Z × Bool)
  unfolding add_node save_state remove_state on_session_timeout
  instance_read service name (c, result, text, ctime) =
      let saved = save_state Z (service ++ (slash ++ name)) k_type_get_service_instance [] c in
      if eq_ℤ result zok
      then (do c' ← add_node service name text ctime saved; some (c', true))
      else if eq_ℤ result znonode
      then some (remove_state Z service k_type_get_service_instance saved, false)
      else if eq_ℤ result zinvalidstate
      then some (on_session_timeout Z saved, false)
      else some (saved, true)

  -- `get_service_instance(serviceZpath, ephemeralName)`.
  unfoldable pub get_service_instance : Str → Str → ZkClient Z → Option (ZkClient Z × Bool)
  unfolding ensure instance_read wget
  get_service_instance service name c = do
    (c', ready) ← ensure c
    if ready
        then instance_read service name (wget Z (service ++ (slash ++ name)) c')
        else some (c', false)

  -- `get_service_instance(path)`: the name keeps its slash.
  unfoldable pub get_service_instance_at : Str → ZkClient Z → Option (ZkClient Z × Bool)
  unfolding split_last get_service_instance
  get_service_instance_at path c = elim (split_last path) [
    | none ↦ some (c, true)
    | some (service, name) ↦ get_service_instance service name c
  ]

  -- The loop over the nodes of a service, whatever each of them gives.
  unfoldable pub get_instances : Str → List Str → ZkClient Z → Option (ZkClient Z)
  unfolding get_service_instance
  get_instances service [] c = some c
  get_instances service (name ∷ names) c = do
    (c', _) ← get_service_instance service name c
    get_instances service names c'

  unfoldable pub refresh : Str → List Str → ZkClient Z → Option (ZkClient Z)
  unfolding get_instances
  refresh service [] c = some c
  refresh service (name ∷ names) c =
      get_instances service (name ∷ names) (record c { cache = remove_name service c.cache })

  unfoldable pub service_read : Str → ZkClient Z × ℤ × List Str → Option (ZkClient Z × Bool)
  unfolding refresh save_state remove_state on_session_timeout
  service_read service (c, result, names) =
      let saved = save_state Z service k_type_get_service [] c in
      if eq_ℤ result zok
      then (do c' ← refresh service names saved; some (c', true))
      else if eq_ℤ result znonode
      then some (remove_state Z service k_type_get_service saved, false)
      else if eq_ℤ result zinvalidstate
      then some (on_session_timeout Z saved, false)
      else some (saved, false)

  unfoldable pub get_service : Str → ZkClient Z → Option (ZkClient Z × Bool)
  unfolding ensure service_read wget_children
  get_service service c = do
    (c', ready) ← ensure c
    if ready then service_read service (wget_children Z service c') else some (c', false)

  -- `ret = ret && get_service(zkpath)`: once a service has failed, the others are not read.
  unfoldable pub get_services : List Str → ZkClient Z → Option (ZkClient Z × Bool)
  unfolding get_service
  get_services [] c = some (c, true)
  get_services (path ∷ paths) c = do
    (c', ret) ← get_service path c
    if ret then get_services paths c' else some (c', false)

  unfoldable pub root_read : Str → ZkClient Z × ℤ × List Str → Option (ZkClient Z × Bool)
  unfolding get_services save_state on_session_timeout
  root_read root (c, result, names) =
      let saved = save_state Z root k_type_get_root [] c in
      if eq_ℤ result zok
      then get_services (map (λ name. root ++ (slash ++ name)) names) saved
      else if eq_ℤ result zinvalidstate
      then some (on_session_timeout Z saved, false)
      else some (saved, false)

  unfoldable pub get_all_services : Str → ZkClient Z → Option (ZkClient Z × Bool)
  unfolding ensure root_read wget_children
  get_all_services root c = do
    (c', ready) ← ensure c
    if ready then root_read root (wget_children Z root c') else some (c', false)

  unfoldable pub pnode_created : ZkClient Z × ℤ → ZkClient Z × ℤ
  unfolding set_connected
  pnode_created (c, result) =
      ((if eq_ℤ result zinvalidstate then set_connected Z false c else c), result)

  unfoldable pub create_pnode : Str → ZkClient Z → Option (ZkClient Z × ℤ)
  unfolding ensure create_node pnode_created
  create_pnode path c = do
    (c', ready) ← ensure c
    if ready
        then some (pnode_created (create_node Z path [] false c'))
        else some (c', zconnectionloss)

  -- What `create_enode` does with the answer, and the watch that it sets last.
  unfoldable pub node_created : Str → Str → ZkClient Z × ℤ → ZkClient Z × ℤ
  unfolding save_state on_session_timeout key new_state
  node_created path text (c, result) =
      let saved = save_state Z path k_type_create_ephereral text c in
      let d =
        if eq_ℤ result zinvalidstate
        then on_session_timeout Z saved
        else if eq_ℤ result znodeexists
        then record saved {
          states =
              replace_client_id_of (key (new_state path k_type_create_ephereral)) 0 saved.states;
        }
        else saved in
      ((wget Z path d).0, result)

  unfoldable pub create_enode : Str → Str → ZkClient Z → Option (ZkClient Z × ℤ)
  unfolding ensure node_created create_node
  create_enode path text c = do
    (c', ready) ← ensure c
    if ready
        then some (node_created path text (create_node Z path text true c'))
        else some (c', zconnectionloss)
