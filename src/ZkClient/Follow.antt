-- ===== src/ZkClient/Follow.antt =====
-- What the watchers of core/ZkClient.cpp do on each type of event.
use mathlib.Core.Option
use mathlib.Core.Option.{some_inj}
use sfproxy.Prelude.{
  ℕ, ◌≡◌, refl, ap, ◌∙◌, ◌⊎◌, inl, inr, Bool, true, false, ◌||◌, Option, none, some, List, ◌++◌,
  if◌then◌else◌, Bool-cases, All, Str, str_eq, ℤ, eq_ℤ,
}
use sfproxy.Json.{Rapidjson}
use sfproxy.Zookeeper.{
  Zookeeper, zok, created_event_def, deleted_event_def, changed_event_def, child_event_def,
}
use sfproxy.OrderedMap.Laws.{find-erase, find-modify}
use sfproxy.Registry.{Registry, is_empty}
use sfproxy.Cache.{get, erase_first, remove_name, remove_ephemeral}
use sfproxy.Cache.Bucket.{IsComplete}
use sfproxy.StateBag.{
  create_key, key, new_state, k_type_get_service, k_type_get_service_instance, k_type_get_root,
}
use sfproxy.StateBag
use sfproxy.StateBag.Owners.{get-remove_state}
use sfproxy.ZkClient.{ZkClient, remove_state}
use sfproxy.ZkClient.Calls.{slash, get_service_instance, get_service, get_all_services}
use sfproxy.ZkClient.Connect.{connect_zk, dropping}
use sfproxy.ZkClient.Refresh.{Describes}
use sfproxy.ZkClient.Rereads.{
  ServiceRead, InstanceRead, RootRead, service-ServiceRead, instance-InstanceRead, root-RootRead,
}
use sfproxy.ZkClient.RefreshAll.{IsOffered, IsLinked, paths_of}
use sfproxy.ZkClient.Watchers.{
  split_path, dispatch, forget_instance, forget_path, service_instance_watcher, service_watcher,
  root_watcher,
}

-- A node was created, or its data or children have changed.
abbrev pub is_change : ℤ → Bool
is_change type =
    eq_ℤ type created_event_def || (eq_ℤ type changed_event_def || eq_ℤ type child_event_def)

module _ (Z : Zookeeper) where
  -- A watcher returns; after a change the client is as the first predicate says, after the deletion of
  -- the node as the second says, and on any other event it is as before.
  abbrev pub Reacts :
      ℤ → ZkClient Z → Option (ZkClient Z) → (ZkClient Z → Type 0) → (ZkClient Z → Type 0) → Type 0
  Reacts type c o Read Gone =
      (d : ZkClient Z) × (o ≡ some d)
      × (((is_change type ≡ true) × Read d)
          ⊎ (((is_change type ≡ false) × (eq_ℤ type deleted_event_def ≡ true) × Gone d)
              ⊎ ((is_change type ≡ false) × (eq_ℤ type deleted_event_def ≡ false) × (d ≡ c))))

  -- The entry of the path is gone from the cache, its watch from the states, and nothing else.
  abbrev pub PathGone : ℕ → Str → ZkClient Z → ZkClient Z → Type 0
  PathGone watch path c d =
      ((j : Str) → get j d.cache ≡ (if str_eq path j then none else get j c.cache))
      × ((k : Str)
          → StateBag.get k d.states
            ≡ (if str_eq (create_key path watch) k then none else StateBag.get k c.states))

  -- The first instance of that name is gone from its service, and its watch from the states, and
  -- nothing else.
  abbrev pub InstanceGone : Str → Str → Str → ZkClient Z → ZkClient Z → Type 0
  InstanceGone node service name c d =
      ((j : Str)
        → get j d.cache ≡ (
            if str_eq service j
            then Option.map (erase_first (λ r. str_eq r.ephemeral name)) (get j c.cache)
            else get j c.cache))
      × ((k : Str)
          → StateBag.get k d.states ≡ (
              if str_eq (create_key node k_type_get_service_instance) k
              then none
              else StateBag.get k c.states))

  module _ (J : Rapidjson) (now fuel : ℕ) where
    dispatch-Reacts :
        (type : ℤ) (reread : ZkClient Z → Option (ZkClient Z)) (forget : ZkClient Z → ZkClient Z)
        (c d : ZkClient Z) (Read Gone : ZkClient Z → Type 0)
        → reread c ≡ some d
        → Read d
        → Gone (forget c)
        → Reacts type c (dispatch Z J now fuel type reread forget c) Read Gone
    unfolding dispatch
    dispatch-Reacts type reread forget c d Read Gone e read gone =
        elim (Bool-cases (is_change type)) [
          | inl change ↦ (d, rw change e, inl (change, read))
          | inr other ↦ elim (Bool-cases (eq_ℤ type deleted_event_def)) [
            | inl deleted ↦ (forget c, rw (other, deleted) refl, inr (inl (other, deleted, gone)))
            | inr ignored ↦ (c, rw (other, ignored) refl, inr (inr (other, ignored, refl)))
          ]
        ]

    forget_path-PathGone :
        (watch : ℕ) (path : Str) (c : ZkClient Z)
        → PathGone watch path c (forget_path Z J now fuel watch path c)
    unfolding forget_path remove_state remove_name get key new_state
    forget_path-PathGone watch path c =
        ((λ j. find-erase path j c.cache), λ k. get-remove_state (new_state path watch) c.states k)

    forget_instance-InstanceGone :
        (node service name : Str) (c : ZkClient Z)
        → split_path node ≡ (service, name)
        → is_empty service ≡ false
        → is_empty name ≡ false
        → InstanceGone node service name c (forget_instance Z J now fuel node c)
    unfolding forget_instance remove_state remove_ephemeral get key new_state
    forget_instance-InstanceGone node service name c e s n =
        rw (e, s, n)
          (
            (λ j. find-modify service j (erase_first (λ r. str_eq r.ephemeral name)) c.cache),
            λ k. get-remove_state (new_state node k_type_get_service_instance) c.states k,
          )

  module _ (J : Rapidjson) (now fuel : ℕ) (first : Str → Str) (rest : Str → List Str)
      (instance_of : Str → Str → Registry) where
    -- A connected client with a handle and a valid cache gets an event of any type from ZooKeeper.
    -- ZooKeeper lists the services below the root, and offers each of them and the service of the
    -- path: whenever it is asked, it has nodes for the service, at least one, whose data describes
    -- complete instances, no two of them with one endpoint. The path of the instance splits into its
    -- service and its name, neither of them empty, and its data describes a complete instance
    -- whenever it is asked for. Then the watchers of the service, of the instance and of the root
    -- return. After a creation or a change, the cache has exactly the described instances for the
    -- service; the instance at the end of its service, in place of those with its endpoint; and
    -- exactly the described instances for each service below the root; all other services are as
    -- before. The states then have the watch of the service and those of its instances, that of the
    -- instance, and those of the root and of the services below it, each with this client. After a
    -- deletion, the service has gone from the cache; the first instance of that name from its
    -- service; and what stood under the path of the root; the watch of that path and that type has
    -- gone from the states; every other service and watch is as before. On every other type of event
    -- the client is as before.
    pub watchers-Reacts :
        (type : ℤ) (path service name root : Str) (names : List Str) (c : ZkClient Z)
        → IsLinked first rest instance_of Z J now (connect_zk Z J now fuel) c
        → IsOffered first rest instance_of Z J now (connect_zk Z J now fuel) path
        → split_path (service ++ (slash ++ name)) ≡ (service, name)
        → is_empty service ≡ false
        → is_empty name ≡ false
        → Describes Z J now (connect_zk Z J now fuel) service (instance_of service) name
        → IsComplete service (instance_of service name)
        → (Z.zoo_wget_children root c.world).1 ≡ zok
        → (Z.zoo_wget_children root c.world).2 ≡ names
        → All
            (IsOffered first rest instance_of Z J now (connect_zk Z J now fuel))
            (paths_of root names)
        → Reacts type c
            (service_watcher Z J now fuel type path c)
            (ServiceRead Z J now fuel first rest instance_of path c)
            (PathGone k_type_get_service path c)
          × Reacts type c
              (service_instance_watcher Z J now fuel type (service ++ (slash ++ name)) c)
              (InstanceRead Z J now fuel first rest instance_of service name c)
              (InstanceGone (service ++ (slash ++ name)) service name c)
          × Reacts type c
              (root_watcher Z J now fuel type root c)
              (RootRead Z J now fuel first rest instance_of root names c)
              (PathGone k_type_get_root root c)
    unfolding service_watcher service_instance_watcher root_watcher
    watchers-Reacts type path service name root names c k o split s n describes whole ok found os =
        let (d, e, read) = service-ServiceRead Z J now fuel first rest instance_of path c o k in
        let (d1, e1, read1) =
          instance-InstanceRead Z J now fuel first rest instance_of service name c describes whole
            k in
        let (d2, e2, read2) =
          root-RootRead Z J now fuel first rest instance_of root names c ok found os k in
        let node = service ++ (slash ++ name) in
        (
          dispatch-Reacts J now fuel type
              (λ x. dropping (get_service Z J now (connect_zk Z J now fuel) path x))
              (forget_path Z J now fuel k_type_get_service path) c d _ _ (ap dropping e) read
              (forget_path-PathGone J now fuel k_type_get_service path c),
          dispatch-Reacts J now fuel type
              (λ x. dropping (
                get_service_instance Z J now (connect_zk Z J now fuel) (split_path node).0
                  (split_path node).1 x))
              (forget_instance Z J now fuel node) c d1 _ _
              (ap (λ p. dropping (get_service_instance Z J now (connect_zk Z J now fuel) p.0 p.1 c))
                  split
                ∙ ap dropping e1)
              read1 (forget_instance-InstanceGone J now fuel node service name c split s n),
          dispatch-Reacts J now fuel type
              (λ x. dropping (get_all_services Z J now (connect_zk Z J now fuel) root x))
              (forget_path Z J now fuel k_type_get_root root) c d2 _ _ (ap dropping e2) read2
              (forget_path-PathGone J now fuel k_type_get_root root c),
        )
