-- ===== src/ZkClient/Rereads.antt =====
-- What the readings that the watchers of core/ZkClient.cpp make leave in the cache and the states.
use mathlib.Core.Option
use mathlib.Core.Option.{some_inj}
use sfproxy.Prelude.{
  ℕ, ◌≡◌, refl, sym, ap, ◌∙◌, subst, Bool, true, Option, some, List, [], ◌∷◌, ◌++◌, map,
  if◌then◌else◌, All, Str, str_eq,
}
use sfproxy.Json.{Rapidjson}
use sfproxy.Zookeeper.{Zookeeper, zok}
use sfproxy.Registry.{Registry}
use sfproxy.Cache.{get}
use sfproxy.Cache.Bucket.{IsComplete}
use sfproxy.Cache.Lookup.{others, get-add}
use sfproxy.StateBag.{create_key, k_type_get_service, k_type_get_service_instance, k_type_get_root}
use sfproxy.ZkClient.{ZkClient, save_state}
use sfproxy.ZkClient.Calls.{
  slash, get_service_instance, get_service, get_services, root_read, get_all_services,
}
use sfproxy.ZkClient.Connect.{connect_zk}
use sfproxy.ZkClient.Healthy.{
  bind_known, ensure-true, moved, Tends, Tends-refl, wget_children_linked,
}
use sfproxy.ZkClient.Survival.{connect_zk-IsSound}
use sfproxy.ZkClient.Refresh.{Describes, stored, read_one}
use sfproxy.ZkClient.Refresh.Owned.{
  Owns, Owns-Tends, Follows, Follows-trans, save_state-Follows, stored-Follows, get_service-Follows,
}
use sfproxy.ZkClient.RefreshAll.{
  IsOffered, IsLinked, overlaid, paths_of, service_refreshed, All-refreshed,
}

-- A call has one result.
same_result {ℓ} :
    {A : Type ℓ} (o : Option (A × Bool)) (d e : A) → o ≡ some (d, true) → o ≡ some (e, true) → d ≡ e
same_result o d e x y = ap (λ r. r.0) (some_inj.0 (sym x ∙ y))

module _ (Z : Zookeeper) (J : Rapidjson) (now fuel : ℕ) (first : Str → Str) (rest : Str → List Str)
    (instance_of : Str → Str → Registry) where
  -- The cache has exactly the instances of the nodes for the service, and the client watches it and
  -- each of them.
  abbrev pub ServiceRead : Str → ZkClient Z → ZkClient Z → Type 0
  ServiceRead path c d =
      ((j : Str)
        → get j d.cache ≡ (
            if str_eq path j
            then some (map (instance_of path) (first path ∷ rest path))
            else get j c.cache))
      × Owns c.id (create_key path k_type_get_service) d.states
      × All
          (λ name.
            Owns c.id (create_key (path ++ (slash ++ name)) k_type_get_service_instance) d.states)
          (first path ∷ rest path)

  pub service-ServiceRead :
      (path : Str) (c : ZkClient Z)
      → IsOffered first rest instance_of Z J now (connect_zk Z J now fuel) path
      → IsLinked first rest instance_of Z J now (connect_zk Z J now fuel) c
      → (d : ZkClient Z) × (get_service Z J now (connect_zk Z J now fuel) path c ≡ some (d, true))
        × ServiceRead path c d
  service-ServiceRead path c o k =
      let connect = connect_zk Z J now fuel in
      let (d, e, _, read) =
        service_refreshed first rest instance_of Z J now connect
          (λ x h. connect_zk-IsSound Z J now fuel x h) path c o k in
      let (d', e', _, own, all) =
        get_service-Follows Z J now connect path (instance_of path) (first path) (rest path) c k.up
          k.handle (o.ok c.world) (o.found c.world) o.describes in
      (d', e', ((λ j. ap (λ x. get j x.cache) (same_result _ d' d e' e) ∙ read j), own, all))

  -- The instance stands last in its service, in place of the one with its endpoint, and the client
  -- watches its node.
  abbrev pub InstanceRead : Str → Str → ZkClient Z → ZkClient Z → Type 0
  InstanceRead service name c d =
      ((j : Str)
        → get j d.cache ≡ (
            if str_eq service j
            then some (
                others (instance_of service name) (Option.get_or (get service c.cache) [])
                ++ (instance_of service name ∷ []))
            else get j c.cache))
      × Owns c.id (create_key (service ++ (slash ++ name)) k_type_get_service_instance) d.states

  pub instance-InstanceRead :
      (service name : Str) (c : ZkClient Z)
      → Describes Z J now (connect_zk Z J now fuel) service (instance_of service) name
      → IsComplete service (instance_of service name)
      → IsLinked first rest instance_of Z J now (connect_zk Z J now fuel) c
      → (d : ZkClient Z) × (get_service_instance Z J now (connect_zk Z J now fuel) service name c
          ≡ some (d, true))
        × InstanceRead service name c d
  instance-InstanceRead service name c describes (own, n, h, e) k =
      let connect = connect_zk Z J now fuel in
      let d = stored Z J now connect service (instance_of service) name c in
      (
        d,
        read_one Z J now connect service (instance_of service) name c describes k.up k.handle,
        (
          λ j.
              unfold stored save_state in
              (get-add (instance_of service name) c.cache j k.valid ∙ rw (n, h, e, own) refl),
          (stored-Follows Z J now connect service (instance_of service) name c k.up k.handle).1,
        ),
      )

  -- The services below the root were read one after the other, and the client watches the root and
  -- each of them.
  abbrev pub RootRead : Str → List Str → ZkClient Z → ZkClient Z → Type 0
  RootRead root names c d =
      ((j : Str)
        → get j d.cache ≡ overlaid first rest instance_of (paths_of root names) j (get j c.cache))
      × Owns c.id (create_key root k_type_get_root) d.states
      × All (λ path. Owns c.id (create_key path k_type_get_service) d.states) (paths_of root names)

  get_services-Follows :
      (paths : List Str) (c : ZkClient Z)
      → All (IsOffered first rest instance_of Z J now (connect_zk Z J now fuel)) paths
      → c.connected ≡ true
      → c.handle ≡ true
      → (d : ZkClient Z) × (get_services Z J now (connect_zk Z J now fuel) paths c ≡ some (d, true))
        × Follows Z c d
        × All (λ path. Owns c.id (create_key path k_type_get_service) d.states) paths
  unfolding get_services
  get_services-Follows [] c h up handle = (
    c,
    refl,
    record { up = up; handle = handle; same = refl; tends = Tends-refl c.id c.states },
    tt,
  )
  get_services-Follows (path ∷ paths) c (o, os) up handle =
      let (c1, e1, f1, own, _) =
        get_service-Follows Z J now (connect_zk Z J now fuel) path (instance_of path) (first path)
          (rest path) c up handle (o.ok c.world) (o.found c.world) o.describes in
      let (d, e2, f2, all) = get_services-Follows paths c1 os f1.up f1.handle in
      let tends = subst (λ id. Tends id c1.states d.states) f1.same f2.tends in
      (
        d,
        bind_known _ _ (c1, true) e1 ∙ e2,
        Follows-trans Z c c1 d f1 f2,
        (
          Owns-Tends c.id (create_key path k_type_get_service) c1.states d.states tends own,
          subst (λ id. All (λ p. Owns id (create_key p k_type_get_service) d.states) paths) f1.same
              all,
        ),
      )

  pub root-RootRead :
      (root : Str) (names : List Str) (c : ZkClient Z)
      → (Z.zoo_wget_children root c.world).1 ≡ zok
      → (Z.zoo_wget_children root c.world).2 ≡ names
      → All
          (IsOffered first rest instance_of Z J now (connect_zk Z J now fuel))
          (paths_of root names)
      → IsLinked first rest instance_of Z J now (connect_zk Z J now fuel) c
      → (d : ZkClient Z) × (get_all_services Z J now (connect_zk Z J now fuel) root c
          ≡ some (d, true))
        × RootRead root names c d
  unfolding get_all_services root_read
  root-RootRead root names c ok found o k =
      let connect = connect_zk Z J now fuel in
      let w = (Z.zoo_wget_children root c.world).0 in
      let saved = save_state Z root k_type_get_root [] (moved Z w c) in
      let (f, own) = save_state-Follows Z root [] k_type_get_root w c k.up k.handle in
      let (d', e', f', all) = get_services-Follows (paths_of root names) saved o f.up f.handle in
      let (d, e, _, read) =
        All-refreshed first rest instance_of Z J now connect
          (λ x h. connect_zk-IsSound Z J now fuel x h) root names c ok found o k in
      let called : get_all_services Z J now connect root c ≡ some (d', true) =
        bind_known _ _ (c, true) (ensure-true Z J now connect c k.up)
        ∙ ap (root_read Z J now connect root) (wget_children_linked Z root c k.handle)
        ∙ rw (ok, found) e' in
      (
        d',
        called,
        (
          (λ j. ap (λ x. get j x.cache) (same_result _ d' d called e) ∙ read j),
          Owns-Tends c.id (create_key root k_type_get_root) saved.states d'.states
              (subst (λ id. Tends id saved.states d'.states) f.same f'.tends) own,
          subst
              (λ id.
                All (λ p. Owns id (create_key p k_type_get_service) d'.states)
                  (paths_of root names))
              f.same all,
        ),
      )
