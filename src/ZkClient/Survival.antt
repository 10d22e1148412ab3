-- ===== src/ZkClient/Survival.antt =====
-- The cache while core/ZkClient.cpp restores watches and connects.
use sfproxy.Prelude.{ℕ, zero, suc, Bool, true, false, Option, some, List, [], ◌∷◌, ◌==◌, Str, ℤ}
use sfproxy.Json.{Rapidjson}
use sfproxy.Zookeeper.{Zookeeper}
use sfproxy.OrderedMap.{find}
use sfproxy.StateBag.{
  ZkState, k_type_create_ephereral, k_type_get_service, k_type_get_service_instance,
  k_type_get_root,
}
use sfproxy.ZkClient.{ZkClient, get_node, k_max_connect_retry_times, set_connected, connect_tries}
use sfproxy.ZkClient.Calls.{ensure}
use sfproxy.ZkClient.Connect
use sfproxy.ZkClient.Connect.{
  keys_of, restore_state, take_over_states, restore_states, linked, unlinked, connected_zk,
  connect_zk,
}
use sfproxy.ZkClient.Validity.{
  ensure-Keeps, IsSoundFor, Keeps, IsSound, get_service-Keeps, get_service_instance_at-Keeps,
  get_all_services-Keeps, create_enode-Keeps, dropping-IsSound,
}
use sfproxy.Prelude.{Post, Post-bind, Post-bind_any, either}

module _ (Z : Zookeeper) where
  module _ (J : Rapidjson) (now : ℕ) (connect : ZkClient Z → Option (ZkClient Z))
      (sound : (c : ZkClient Z) → IsSound Z c → Post (IsSound Z) (connect c)) where
    restore_state-IsSound :
        (s : ZkState) (c : ZkClient Z)
        → IsSound Z c
        → Post (IsSound Z) (restore_state Z J now connect s c)
    unfolding restore_state
    restore_state-IsSound s c h =
        either (Post (IsSound Z)) (s.type == k_type_create_ephereral) _ _
          (dropping-IsSound Z J now connect sound _
            (create_enode-Keeps Z J now connect sound s.path s.text c h))
          (either (Post (IsSound Z)) (s.type == k_type_get_service) _ _
            (dropping-IsSound Z J now connect sound _
              (get_service-Keeps Z J now connect sound s.path c h))
            (either (Post (IsSound Z)) (s.type == k_type_get_service_instance) _ _
              (dropping-IsSound Z J now connect sound _
                (get_service_instance_at-Keeps Z J now connect sound s.path c h))
              (either (Post (IsSound Z)) (s.type == k_type_get_root) _ _
                (dropping-IsSound Z J now connect sound _
                  (get_all_services-Keeps Z J now connect sound s.path c h))
                h)))

    take_over_states-IsSound :
        (ks : List Str) (c : ZkClient Z)
        → IsSound Z c
        → Post (IsSound Z) (take_over_states Z J now connect ks c)
    unfolding take_over_states
    take_over_states-IsSound [] c h = h
    take_over_states-IsSound (k ∷ ks) c h = Post-bind_any (IsSound Z) (find k c.states) _ (λ s.
        Post-bind (IsSound Z) (IsSound Z) (restore_state Z J now connect s _) _
          (restore_state-IsSound s _ h) (λ d i. take_over_states-IsSound ks d i))

    restore_states-IsSound :
        (c : ZkClient Z) → IsSound Z c → Post (IsSound Z) (restore_states Z J now connect c)
    unfolding restore_states
    restore_states-IsSound c h =
        Post-bind (IsSound Z) (IsSound Z) _ _ (take_over_states-IsSound (keys_of c.id c.states) c h)
          (λ d k. take_over_states-IsSound (keys_of 0 d.states) d k)

    connected_zk-IsSound :
        (c : ZkClient Z) → IsSound Z c → Post (IsSound Z) (connected_zk Z J now connect c)
    unfolding connected_zk linked unlinked set_connected
    connected_zk-IsSound c h =
        let r = connect_tries Z (suc k_max_connect_retry_times) c.world in pick r.0 r.1
      where
        pick :
            (w : Z.World) (up : Bool)
            → Post (IsSound Z) (elim up [
              | true ↦ restore_states Z J now connect (linked Z J now w c)
              | false ↦ some (unlinked Z J now w c)
            ])
        pick w true = restore_states-IsSound (linked Z J now w c) h
        pick w false = h

  module _ (J : Rapidjson) (now : ℕ) where
    -- Whatever ZooKeeper and its data are, and however deep the restoring of watches goes: where
    -- `connect_zk` returns, a valid cache has stayed valid.
    pub connect_zk-IsSound :
        (fuel : ℕ) (c : ZkClient Z) → IsSound Z c → Post (IsSound Z) (connect_zk Z J now fuel c)
    unfolding connect_zk
    connect_zk-IsSound zero c h = tt
    connect_zk-IsSound (suc fuel) c h =
        pick c.connected
          (connected_zk-IsSound J now (connect_zk Z J now fuel) (connect_zk-IsSound fuel) c h)
      where
        pick :
            (b : Bool)
            → Post (IsSound Z) (connected_zk Z J now (connect_zk Z J now fuel) c)
            → Post (IsSound Z) (elim b [
              | true ↦ some c
              | false ↦ connected_zk Z J now (connect_zk Z J now fuel) c
            ])
        pick true k = h
        pick false k = k

    pub check-Keeps :
        (fuel : ℕ) (path : Str) (c : ZkClient Z)
        → IsSound Z c
        → Keeps Z (Connect.check Z J now fuel path c)
    unfolding Connect.check get_node
    check-Keeps fuel path c h =
        let connect = connect_zk Z J now fuel in
        let sound = connect_zk-IsSound fuel in
        Post-bind (IsSoundFor Z) (IsSoundFor Z) (ensure Z J now connect c) _
          (ensure-Keeps Z J now connect sound c h)
          (λ (d, ready) k.
            either (Keeps Z) ready _ _
              (Post-bind (IsSound Z) (IsSoundFor Z)
                (take_over_states Z J now connect (keys_of 0 d.states) d) _
                (take_over_states-IsSound J now connect sound (keys_of 0 d.states) d k)
                (λ e i. either (λ (r : ZkClient Z × ℤ × Str). IsSound Z r.0) e.handle _ _ i i))
              k)
