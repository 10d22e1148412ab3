-- ===== src/ZkClient/Connect.antt =====
-- `connect_zk` of core/ZkClient.cpp, which restores the watches, which may connect again; and the
-- operations with it.
use sfproxy.Prelude.{
  ℕ, zero, suc, Bool, true, false, Option, none, some, List, [], ◌∷◌, ◌++◌, map, ◌==◌,
  if◌then◌else◌, ◌>>=◌, Str, ℤ, eq_ℤ,
}
use sfproxy.Json.{Rapidjson}
use sfproxy.Zookeeper.{Zookeeper, zok, zinvalidstate}
use sfproxy.OrderedMap.{find}
use sfproxy.StateBag.{
  StateBag, ZkState, replace_client_id_of, k_type_create_ephereral, k_type_get_service,
  k_type_get_service_instance, k_type_get_root,
}
use sfproxy.ZkClient.{
  ZkClient, k_max_connect_retry_times, c_string, buffer_size, set_connected, on_session_timeout,
  connect_tries, get_node, list_node,
}
use sfproxy.ZkClient.Calls.{
  slash, ensure, get_service_instance_at, get_service, get_all_services, create_enode,
}

-- `shared_states_->get(id)`: the keys stand for the pointers, which are looked at later.
unfoldable pub keys_of : ℕ → StateBag → List Str
keys_of id [] = []
keys_of id ((k, s) ∷ bag) = if s.client_id == id then k ∷ keys_of id bag else keys_of id bag

-- The client after an operation whose own result is not looked at.
abbrev pub dropping {ℓ κ} : {C : Type ℓ} {A : Type κ} → Option (C × A) → Option C
dropping none = none
dropping (some r) = some r.0

module _ (Z : Zookeeper) (J : Rapidjson) (now : ℕ) where
  open Z use {client_id}

  module _ (connect : ZkClient Z → Option (ZkClient Z)) where
    -- A state of no known type only changes hands.
    unfoldable pub restore_state : ZkState → ZkClient Z → Option (ZkClient Z)
    unfolding create_enode get_service get_service_instance_at get_all_services
    restore_state s c =
        if s.type == k_type_create_ephereral
        then dropping (create_enode Z J now connect s.path s.text c)
        else if s.type == k_type_get_service
        then dropping (get_service Z J now connect s.path c)
        else if s.type == k_type_get_service_instance
        then dropping (get_service_instance_at Z J now connect s.path c)
        else if s.type == k_type_get_root
        then dropping (get_all_services Z J now connect s.path c)
        else some c

    -- `none` is the read of a state that was deleted since the list was made. The keys stand for the
    -- pointers of the code: where a state of that key was added again in the meantime, the new one is
    -- taken over here, while the code still reads the deleted one.
    unfoldable pub take_over_states : List Str → ZkClient Z → Option (ZkClient Z)
    unfolding restore_state
    take_over_states [] c = some c
    take_over_states (k ∷ ks) c = do
      s ← find k c.states
      c' ← restore_state s (record c { states = replace_client_id_of k c.id c.states })
      take_over_states ks c'

    unfoldable pub restore_states : ZkClient Z → Option (ZkClient Z)
    unfolding take_over_states keys_of
    restore_states c = do
      c' ← take_over_states (keys_of c.id c.states) c
      take_over_states (keys_of 0 c'.states) c'

  -- With a new handle, and without one.
  unfoldable pub linked : Z.World → ZkClient Z → ZkClient Z
  unfolding set_connected
  linked w c = record (set_connected Z true (record c { world = w })) {
    handle = true;
    session_id = client_id w;
  }

  unfoldable pub unlinked : Z.World → ZkClient Z → ZkClient Z
  unfolding set_connected
  unlinked w c = record (set_connected Z false (record c { world = w })) { handle = false }

  -- After the tries. The retries are those of the `do` loop: the first try, and ten more.
  unfoldable pub connected_zk :
      (ZkClient Z → Option (ZkClient Z)) → ZkClient Z → Option (ZkClient Z)
  unfolding connect_tries restore_states linked unlinked
  connected_zk connect c =
      let (w, up) = connect_tries Z (suc k_max_connect_retry_times) c.world in
      elim up [ true ↦ restore_states connect (linked w c) | false ↦ some (unlinked w c) ]

  unfoldable pub connect_zk : ℕ → ZkClient Z → Option (ZkClient Z)
  unfolding connected_zk
  connect_zk zero c = none
  connect_zk (suc fuel) c = elim c.connected [
    | true ↦ some c
    | false ↦ connected_zk (connect_zk fuel) c
  ]

  -- `ZkClient::open`. The result is that of `connect_zk`: whether the tries gave a handle, whatever
  -- the restoring of the watches does to it afterwards.
  unfoldable pub open_zk : ℕ → ZkClient Z → Option (ZkClient Z × Bool)
  unfolding connect_zk
  open_zk fuel c = elim c.connected [
    | true ↦ some (c, true)
    | false ↦ do
      c' ← connect_zk fuel c
      some (c', (connect_tries Z (suc k_max_connect_retry_times) c.world).1)
  ]

  -- `check`: the states without a client are taken over, and the top node is read.
  unfoldable pub check : ℕ → Str → ZkClient Z → Option (ZkClient Z × Bool)
  unfolding connect_zk ensure take_over_states keys_of get_node
  check fuel top_zk_path c = do
    (c', ready) ← ensure Z J now (connect_zk fuel) c
    if ready
        then (do
          d ← take_over_states (connect_zk fuel) (keys_of 0 c'.states) c'
          let (e, result, _) = get_node Z top_zk_path d
          some (e, eq_ℤ result zok))
        else some (c', false)

  unfoldable pub children_read : Str → ZkClient Z × ℤ × List Str → ZkClient Z × List Str
  unfolding on_session_timeout
  children_read zkpath (c, result, names) =
      if eq_ℤ result zok
      then (c, map (λ name. zkpath ++ (slash ++ name)) names)
      else if eq_ℤ result zinvalidstate
      then (on_session_timeout Z c, [])
      else (c, [])

  unfoldable pub get_children : ℕ → Str → ZkClient Z → Option (ZkClient Z × List Str)
  unfolding connect_zk ensure children_read list_node
  get_children fuel zkpath c = do
    (c', ready) ← ensure Z J now (connect_zk fuel) c
    if ready then some (children_read zkpath (list_node Z zkpath c')) else some (c', [])

  unfoldable pub data_read : ZkClient Z × ℤ × Str → Option (ZkClient Z × Str)
  unfolding c_string on_session_timeout
  data_read (c, result, text) =
      if eq_ℤ result zok
      then (do s ← c_string buffer_size text; some (c, s))
      else if eq_ℤ result zinvalidstate
      then some (on_session_timeout Z c, [])
      else some (c, [])

  -- `get_data`: without a connection it returns `false` as a string, the text at a null pointer.
  unfoldable pub get_data : ℕ → Str → ZkClient Z → Option (ZkClient Z × Str)
  unfolding connect_zk ensure data_read get_node
  get_data fuel zkpath c = do
    (c', ready) ← ensure Z J now (connect_zk fuel) c
    if ready then data_read (get_node Z zkpath c') else none
