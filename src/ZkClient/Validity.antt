-- ===== src/ZkClient/Validity.antt =====
-- The cache that the reading operations of core/ZkClient.cpp write to.
use sfproxy.Prelude.{
  ℕ, Bool, true, false, ◌&&◌, Option, none, some, List, [], ◌∷◌, ◌++◌, map, ◌>>=◌, Str, ℤ, eq_ℤ,
}
use sfproxy.Prelude.{Post, Post-bind, Post-bind_any, either}
use sfproxy.Json.{Rapidjson}
use sfproxy.Zookeeper.{Zookeeper, zok, zinvalidstate, znonode, znodeexists}
use sfproxy.Cache.Invariant.{IsValid, add-IsValid, erase-IsValid}
use sfproxy.Cache.{remove_name}
use sfproxy.StateBag.{k_type_get_root}
use sfproxy.ZkClient.{
  ZkClient, buffer_size, c_string, from_node, set_connected, on_session_timeout, save_state,
  remove_state, wget, wget_children, create_node,
}
use sfproxy.ZkClient.Calls.{
  slash, split_last, ensure, blank, add_node, instance_read, get_service_instance,
  get_service_instance_at, get_instances, refresh, service_read, get_service, get_services,
  root_read, get_all_services, node_created, create_enode, create_pnode, pnode_created,
}
use sfproxy.ZkClient.Connect.{dropping}

module _ (Z : Zookeeper) where
  abbrev pub IsSound : ZkClient Z → Type 0
  IsSound c = IsValid c.cache

  abbrev pub IsSoundFor {ℓ} : {A : Type ℓ} → ZkClient Z × A → Type 0
  IsSoundFor r = IsSound r.0

  abbrev pub Keeps {ℓ} : {A : Type ℓ} → Option (ZkClient Z × A) → Type 0
  Keeps r = Post IsSoundFor r

  wget-IsSound : (path : Str) (c : ZkClient Z) → IsSound c → IsSound (wget Z path c).0
  unfolding wget
  wget-IsSound path c h = either (λ (r : ZkClient Z × ℤ × Str × ℕ). IsSound r.0) c.handle _ _ h h

  wget_children-IsSound :
      (path : Str) (c : ZkClient Z) → IsSound c → IsSound (wget_children Z path c).0
  unfolding wget_children
  wget_children-IsSound path c h =
      either (λ (r : ZkClient Z × ℤ × List Str). IsSound r.0) c.handle _ _ h h

  create_node-IsSound :
      (path text : Str) (e : Bool) (c : ZkClient Z)
      → IsSound c
      → IsSound (create_node Z path text e c).0
  unfolding create_node
  create_node-IsSound path text e c h = either {A = ZkClient Z × ℤ} IsSoundFor c.handle _ _ h h

  module _ (J : Rapidjson) (now : ℕ) (connect : ZkClient Z → Option (ZkClient Z))
      (sound : (c : ZkClient Z) → IsSound c → Post IsSound (connect c)) where
    pub ensure-Keeps : (c : ZkClient Z) → IsSound c → Keeps (ensure Z J now connect c)
    unfolding ensure
    ensure-Keeps c h = pick c.connected
      where
        pick :
            (b : Bool)
            → Keeps (elim b [
              | true ↦ some (c, true)
              | false ↦ do c' ← connect c; some (c', c'.connected && c'.handle)
            ])
        pick true = h
        pick false = Post-bind IsSound IsSoundFor (connect c) _ (sound c h) (λ d k. k)

    add_node-IsSound :
        (service name text : Str) (ctime : ℕ) (c : ZkClient Z)
        → IsSound c
        → Post IsSound (add_node Z J now connect service name text ctime c)
    unfolding add_node
    add_node-IsSound service name text ctime c h =
        Post-bind_any IsSound (c_string buffer_size text) _ (λ s.
          Post-bind_any IsSound (from_node J s (blank Z J now connect service name ctime)) _
            (λ r. add-IsValid r c.cache h))

    instance_read-Keeps :
        (service name : Str) (r : ZkClient Z × ℤ × Str × ℕ)
        → IsSound r.0
        → Keeps (instance_read Z J now connect service name r)
    unfolding instance_read save_state remove_state on_session_timeout set_connected
    instance_read-Keeps service name (c, result, text, ctime) h =
        either Keeps (eq_ℤ result zok) _ _
          (Post-bind IsSound IsSoundFor _ _ (add_node-IsSound service name text ctime _ h)
            (λ d k. k))
          (either Keeps (eq_ℤ result znonode) _ _ h
            (either Keeps (eq_ℤ result zinvalidstate) _ _ h h))

    pub get_service_instance-Keeps :
        (service name : Str) (c : ZkClient Z)
        → IsSound c
        → Keeps (get_service_instance Z J now connect service name c)
    unfolding get_service_instance
    get_service_instance-Keeps service name c h =
        Post-bind IsSoundFor IsSoundFor (ensure Z J now connect c) _ (ensure-Keeps c h)
          (λ (d, ready) k.
            either Keeps ready _ _
              (instance_read-Keeps service name (wget Z (service ++ (slash ++ name)) d)
                (wget-IsSound _ d k))
              k)

    pub get_service_instance_at-Keeps :
        (path : Str) (c : ZkClient Z)
        → IsSound c
        → Keeps (get_service_instance_at Z J now connect path c)
    unfolding get_service_instance_at
    get_service_instance_at-Keeps path c h = pick (split_last path)
      where
        pick :
            (o : Option (Str × Str))
            → Keeps (elim o [
              | none ↦ some (c, true)
              | some (service, name) ↦ get_service_instance Z J now connect service name c
            ])
        pick none = h
        pick (some (service, name)) = get_service_instance-Keeps service name c h

    get_instances-IsSound :
        (service : Str) (names : List Str) (c : ZkClient Z)
        → IsSound c
        → Post IsSound (get_instances Z J now connect service names c)
    unfolding get_instances
    get_instances-IsSound service [] c h = h
    get_instances-IsSound service (name ∷ names) c h =
        Post-bind IsSoundFor IsSound (get_service_instance Z J now connect service name c) _
          (get_service_instance-Keeps service name c h)
          (λ (d, _) k. get_instances-IsSound service names d k)

    refresh-IsSound :
        (service : Str) (names : List Str) (c : ZkClient Z)
        → IsSound c
        → Post IsSound (refresh Z J now connect service names c)
    unfolding refresh remove_name
    refresh-IsSound service [] c h = h
    refresh-IsSound service (name ∷ names) c h =
        get_instances-IsSound service (name ∷ names)
          (record c { cache = remove_name service c.cache }) (erase-IsValid service c.cache h)

    service_read-Keeps :
        (service : Str) (r : ZkClient Z × ℤ × List Str)
        → IsSound r.0
        → Keeps (service_read Z J now connect service r)
    unfolding service_read save_state remove_state on_session_timeout set_connected
    service_read-Keeps service (c, result, names) h =
        either Keeps (eq_ℤ result zok) _ _
          (Post-bind IsSound IsSoundFor _ _ (refresh-IsSound service names _ h) (λ d k. k))
          (either Keeps (eq_ℤ result znonode) _ _ h
            (either Keeps (eq_ℤ result zinvalidstate) _ _ h h))

    pub get_service-Keeps :
        (service : Str) (c : ZkClient Z) → IsSound c → Keeps (get_service Z J now connect service c)
    unfolding get_service
    get_service-Keeps service c h =
        Post-bind IsSoundFor IsSoundFor (ensure Z J now connect c) _ (ensure-Keeps c h)
          (λ (d, ready) k.
            either Keeps ready _ _
              (service_read-Keeps service (wget_children Z service d) (wget_children-IsSound _ d k))
              k)

    get_services-Keeps :
        (paths : List Str) (c : ZkClient Z)
        → IsSound c
        → Keeps (get_services Z J now connect paths c)
    unfolding get_services
    get_services-Keeps [] c h = h
    get_services-Keeps (path ∷ paths) c h =
        Post-bind IsSoundFor IsSoundFor (get_service Z J now connect path c) _
          (get_service-Keeps path c h)
          (λ (d, ret) k. either Keeps ret _ _ (get_services-Keeps paths d k) k)

    root_read-Keeps :
        (root : Str) (r : ZkClient Z × ℤ × List Str)
        → IsSound r.0
        → Keeps (root_read Z J now connect root r)
    unfolding root_read save_state on_session_timeout set_connected
    root_read-Keeps root (c, result, names) h =
        either Keeps (eq_ℤ result zok) _ _
          (get_services-Keeps (map (λ name. root ++ (slash ++ name)) names)
            (save_state Z root k_type_get_root [] c) h)
          (either Keeps (eq_ℤ result zinvalidstate) _ _ h h)

    pub get_all_services-Keeps :
        (root : Str) (c : ZkClient Z) → IsSound c → Keeps (get_all_services Z J now connect root c)
    unfolding get_all_services
    get_all_services-Keeps root c h =
        Post-bind IsSoundFor IsSoundFor (ensure Z J now connect c) _ (ensure-Keeps c h)
          (λ (d, ready) k.
            either Keeps ready _ _
              (root_read-Keeps root (wget_children Z root d) (wget_children-IsSound _ d k)) k)

    node_created-IsSound :
        (path text : Str) (r : ZkClient Z × ℤ)
        → IsSound r.0
        → IsSound (node_created Z J now connect path text r).0
    unfolding node_created save_state on_session_timeout set_connected
    node_created-IsSound path text (c, result) h = wget-IsSound path _ (
        either IsSound (eq_ℤ result zinvalidstate) _ _ h
          (either IsSound (eq_ℤ result znodeexists) _ _ h h))

    pub create_enode-Keeps :
        (path text : Str) (c : ZkClient Z)
        → IsSound c
        → Keeps (create_enode Z J now connect path text c)
    unfolding create_enode
    create_enode-Keeps path text c h =
        Post-bind IsSoundFor IsSoundFor (ensure Z J now connect c) _ (ensure-Keeps c h)
          (λ (d, ready) k.
            either Keeps ready _ _
              (node_created-IsSound path text (create_node Z path text true d)
                (create_node-IsSound path text true d k))
              k)

    pub dropping-IsSound {ℓ} :
        {A : Type ℓ} (r : Option (ZkClient Z × A)) → Keeps r → Post IsSound (dropping r)
    dropping-IsSound none h = tt
    dropping-IsSound (some x) h = h

    pub create_pnode-Keeps :
        (path : Str) (c : ZkClient Z) → IsSound c → Keeps (create_pnode Z J now connect path c)
    unfolding create_pnode pnode_created set_connected
    create_pnode-Keeps path c h =
        Post-bind IsSoundFor IsSoundFor (ensure Z J now connect c) _ (ensure-Keeps c h)
          (λ (d, ready) k.
            either Keeps ready _ _
              (either (IsSound) (eq_ℤ (create_node Z path [] false d).1 zinvalidstate) _ _
                (create_node-IsSound path [] false d k) (create_node-IsSound path [] false d k))
              k)
