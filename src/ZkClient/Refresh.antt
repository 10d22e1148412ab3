-- ===== src/ZkClient/Refresh.antt =====
-- What `get_service` of core/ZkClient.cpp leaves in the cache.
pub mod Owned
use sfproxy.Prelude.{
  ℕ, ◌≡◌, refl, ap, ◌∙◌, true, Option, some, List, [], ◌∷◌, ◌++◌, map, if◌then◌else◌, All, Str,
  str_eq,
}
use sfproxy.Json.{Rapidjson}
use sfproxy.Zookeeper.{Zookeeper, zok}
use sfproxy.Registry.{Registry}
use sfproxy.Cache.{RegistryCache, add, get, remove_name}
use sfproxy.Cache.Bucket.{IsComplete, Distinct}
use sfproxy.Cache.Invariant.{IsValid}
use sfproxy.Cache.Rebuild.{add_all, add_all_rebuilds}
use sfproxy.StateBag.{k_type_get_service, k_type_get_service_instance}
use sfproxy.ZkClient.{ZkClient, buffer_size, c_string, from_node, save_state, wget}
use sfproxy.ZkClient.Calls.{
  slash, blank, add_node, instance_read, get_service_instance, get_instances, refresh, service_read,
  get_service,
}
use sfproxy.ZkClient.Healthy.{bind_known, ensure-true, moved, wget_linked, wget_children_linked}

module _ (Z : Zookeeper) (J : Rapidjson) (now : ℕ) (connect : ZkClient Z → Option (ZkClient Z))
    (service : Str) (instance_of : Str → Registry) where
  -- ZooKeeper has a node for the instance, whose data describes it, whenever it is asked.
  abbrev pub Describes : Str → Type 0
  Describes name =
      (w : Z.World)
      → let a = Z.zoo_wget (service ++ (slash ++ name)) w in
        (a.1 ≡ zok)
        × (s : Str) × (c_string buffer_size a.2 ≡ some s)
        × (from_node J s (blank Z J now connect service name a.3) ≡ some (instance_of name))

  -- A connected client with a cache.
  pub record Holding (cache : RegistryCache) (c : ZkClient Z) : Type 0 where
    pub up : c.connected ≡ true
    pub handle : c.handle ≡ true
    pub kept : c.cache ≡ cache

  unfoldable pub stored : Str → ZkClient Z → ZkClient Z
  stored name c =
      let d =
        save_state Z (service ++ (slash ++ name)) k_type_get_service_instance []
          (moved Z (Z.zoo_wget (service ++ (slash ++ name)) c.world).0 c) in
      record d { cache = add (instance_of name) d.cache }

  node_read :
      (name : Str) (c : ZkClient Z)
      → Describes name
      → c.handle ≡ true
      → instance_read Z J now connect service name (wget Z (service ++ (slash ++ name)) c)
        ≡ some (stored name c, true)
  unfolding instance_read add_node stored
  node_read name c describes handle =
      let (ok, s, text, filled) = describes c.world in
      ap (instance_read Z J now connect service name)
        (wget_linked Z (service ++ (slash ++ name)) c handle)
      ∙ rw (ok, text, filled) refl

  pub read_one :
      (name : Str) (c : ZkClient Z)
      → Describes name
      → c.connected ≡ true
      → c.handle ≡ true
      → get_service_instance Z J now connect service name c ≡ some (stored name c, true)
  unfolding get_service_instance
  read_one name c describes up handle =
      bind_known _ _ (c, true) (ensure-true Z J now connect c up)
      ∙ node_read name c describes handle

  stored-Holding :
      (name : Str) (cache : RegistryCache) (c : ZkClient Z)
      → Holding cache c
      → Holding (add (instance_of name) cache) (stored name c)
  unfolding stored save_state
  stored-Holding name cache c k = record {
    up = k.up;
    handle = k.handle;
    kept = ap (add (instance_of name)) k.kept;
  }

  get_instances-add_all :
      (names : List Str) (cache : RegistryCache) (c : ZkClient Z)
      → All Describes names
      → Holding cache c
      → (d : ZkClient Z) × (get_instances Z J now connect service names c ≡ some d)
        × Holding (add_all (map instance_of names) cache) d
  unfolding get_instances add_all
  get_instances-add_all [] cache c h k =
      (c, refl, record { up = k.up; handle = k.handle; kept = k.kept })
  get_instances-add_all (name ∷ names) cache c h k =
      let (d, e, result) =
        get_instances-add_all names (add (instance_of name) cache) (stored name c) h.1
          (stored-Holding name cache c k) in
      (d, bind_known _ _ (stored name c, true) (read_one name c h.0 k.up k.handle) ∙ e, result)

  -- What the client is when the nodes of the service have been listed, and when the service is gone
  -- from the cache.
  listed : ZkClient Z → ZkClient Z
  listed c =
      save_state Z service k_type_get_service [] (moved Z (Z.zoo_wget_children service c.world).0 c)

  emptied : ZkClient Z → ZkClient Z
  emptied c = record (listed c) { cache = remove_name service (listed c).cache }

  children_read :
      (name : Str) (names : List Str) (c d : ZkClient Z)
      → c.connected ≡ true
      → c.handle ≡ true
      → (Z.zoo_wget_children service c.world).1 ≡ zok
      → (Z.zoo_wget_children service c.world).2 ≡ name ∷ names
      → get_instances Z J now connect service (name ∷ names) (emptied c) ≡ some d
      → get_service Z J now connect service c ≡ some (d, true)
  unfolding get_service service_read refresh listed emptied
  children_read name names c d up handle ok found e =
      bind_known _ _ (c, true) (ensure-true Z J now connect c up)
      ∙ ap (service_read Z J now connect service) (wget_children_linked Z service c handle)
      ∙ rw (ok, found) (bind_known _ _ d e)

  emptied-Holding :
      (c : ZkClient Z)
      → c.connected ≡ true
      → c.handle ≡ true
      → Holding (remove_name service c.cache) (emptied c)
  unfolding emptied listed save_state
  emptied-Holding c up handle = record { up = up; handle = handle; kept = refl }

  pub refreshed :
      (name : Str) (names : List Str) (c : ZkClient Z)
      → c.connected ≡ true
      → c.handle ≡ true
      → IsValid c.cache
      → (Z.zoo_wget_children service c.world).1 ≡ zok
      → (Z.zoo_wget_children service c.world).2 ≡ name ∷ names
      → All Describes (name ∷ names)
      → All (IsComplete service) (map instance_of (name ∷ names))
      → Distinct (map instance_of (name ∷ names))
      → (d : ZkClient Z) × (get_service Z J now connect service c ≡ some (d, true))
        × (d.connected ≡ true)
        × (d.handle ≡ true)
        × ((j : Str)
            → get j d.cache
              ≡ (if str_eq service j then some (map instance_of (name ∷ names)) else get j c.cache))
  refreshed name names c up handle valid ok found describes complete distinct =
      let (d, e, result) =
        get_instances-add_all (name ∷ names) (remove_name service c.cache) (emptied c) describes
          (emptied-Holding c up handle) in
      (
        d,
        children_read name names c d up handle ok found e,
        result.up,
        result.handle,
        λ j.
            ap (get j) result.kept
            ∙ add_all_rebuilds service j (instance_of name) (map instance_of names) c.cache valid
                complete distinct,
      )

  -- A connected client with a valid cache reads a service that has nodes. Each node has data that
  -- describes a complete instance, and no two of them have one endpoint. Then `get_service` succeeds,
  -- and the cache has exactly these instances for the service, in the order of the nodes, whatever it
  -- had before; every other service is as before.
  pub get_service-refreshes :
      (name : Str) (names : List Str) (j : Str) (c : ZkClient Z)
      → c.connected ≡ true
      → c.handle ≡ true
      → IsValid c.cache
      → (Z.zoo_wget_children service c.world).1 ≡ zok
      → (Z.zoo_wget_children service c.world).2 ≡ name ∷ names
      → All Describes (name ∷ names)
      → All (IsComplete service) (map instance_of (name ∷ names))
      → Distinct (map instance_of (name ∷ names))
      → (d : ZkClient Z) × (get_service Z J now connect service c ≡ some (d, true))
        × (get j d.cache
            ≡ (if str_eq service j then some (map instance_of (name ∷ names)) else get j c.cache))
  get_service-refreshes name names j c up handle valid ok found describes complete distinct =
      let (d, e, _, _, result) =
        refreshed name names c up handle valid ok found describes complete distinct in
      (d, e, result j)
