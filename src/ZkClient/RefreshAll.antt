-- ===== src/ZkClient/RefreshAll.antt =====
-- What `get_all_services` of core/ZkClient.cpp leaves in the cache.
use sfproxy.Prelude.{
  ℕ, ◌≡◌, refl, ap, ◌∙◌, true, Option, some, List, [], ◌∷◌, ◌++◌, map, if◌then◌else◌, All, Str,
  str_eq,
}
use sfproxy.Prelude.{Post, Post-known}
use sfproxy.Json.{Rapidjson}
use sfproxy.Zookeeper.{Zookeeper, zok}
use sfproxy.Registry.{Registry}
use sfproxy.Cache.{get}
use sfproxy.Cache.Bucket.{IsComplete, Distinct}
use sfproxy.Cache.Invariant.{IsValid}
use sfproxy.StateBag.{k_type_get_root}
use sfproxy.ZkClient.{ZkClient, save_state}
use sfproxy.ZkClient.Calls.{slash, get_service, get_services, root_read, get_all_services}
use sfproxy.ZkClient.Healthy.{bind_known, ensure-true, moved, wget_children_linked}
use sfproxy.ZkClient.Refresh.{Describes, refreshed}
use sfproxy.ZkClient.Validity.{IsSound, IsSoundFor, get_service-Keeps}

-- The paths of the services below the root.
abbrev pub paths_of : Str → List Str → List Str
paths_of root names = map (λ name. root ++ (slash ++ name)) names

module _ (first : Str → Str) (rest : Str → List Str) (instance_of : Str → Str → Registry) where
  -- The instances of a service, as its nodes describe them.
  abbrev pub described : Str → List Registry
  described path = map (instance_of path) (first path ∷ rest path)

  -- What is known of a service after those of a list were read.
  unfoldable pub overlaid : List Str → Str → Option (List Registry) → Option (List Registry)
  overlaid [] j old = old
  overlaid (path ∷ paths) j old =
      overlaid paths j (if str_eq path j then some (described path) else old)

  module _ (Z : Zookeeper) (J : Rapidjson) (now : ℕ)
      (connect : ZkClient Z → Option (ZkClient Z)) where
    -- ZooKeeper has the nodes of a service, whenever it is asked.
    pub record IsOffered (path : Str) : Type 0 where
      pub ok : (w : Z.World) → (Z.zoo_wget_children path w).1 ≡ zok
      pub found : (w : Z.World) → (Z.zoo_wget_children path w).2 ≡ first path ∷ rest path
      pub describes :
          All (Describes Z J now connect path (instance_of path)) (first path ∷ rest path)
      pub complete : All (IsComplete path) (described path)
      pub distinct : Distinct (described path)

    pub record IsLinked (c : ZkClient Z) : Type 0 where
      pub up : c.connected ≡ true
      pub handle : c.handle ≡ true
      pub valid : IsValid c.cache

    module _ (sound : (c : ZkClient Z) → IsSound Z c → Post (IsSound Z) (connect c)) where
      pub service_refreshed :
          (path : Str) (c : ZkClient Z)
          → IsOffered path
          → IsLinked c
          → (d : ZkClient Z) × (get_service Z J now connect path c ≡ some (d, true))
            × IsLinked d
            × ((j : Str)
                → get j d.cache ≡ (if str_eq path j then some (described path) else get j c.cache))
      service_refreshed path c o k =
          let (d, e, up, handle, read) =
            refreshed Z J now connect path (instance_of path) (first path) (rest path) c k.up
              k.handle k.valid (o.ok c.world) (o.found c.world) o.describes o.complete o.distinct in
          (
            d,
            e,
            record {
              up = up;
              handle = handle;
              valid =
                  Post-known (IsSoundFor Z) _ (d, true) e
                    (get_service-Keeps Z J now connect sound path c k.valid);
            },
            read,
          )

      services_refreshed :
          (paths : List Str) (c : ZkClient Z)
          → All IsOffered paths
          → IsLinked c
          → (d : ZkClient Z) × (get_services Z J now connect paths c ≡ some (d, true))
            × IsLinked d
            × ((j : Str) → get j d.cache ≡ overlaid paths j (get j c.cache))
      unfolding get_services overlaid
      services_refreshed [] c o k = (c, refl, k, λ j. refl)
      services_refreshed (path ∷ paths) c o k =
          let (c1, e1, k1, read1) = service_refreshed path c o.0 k in
          let (d, e2, k2, read2) = services_refreshed paths c1 o.1 k1 in
          (d, bind_known _ _ (c1, true) e1 ∙ e2, k2, λ j. read2 j ∙ ap (overlaid paths j) (read1 j))

      pub All-refreshed :
          (root : Str) (names : List Str) (c : ZkClient Z)
          → (Z.zoo_wget_children root c.world).1 ≡ zok
          → (Z.zoo_wget_children root c.world).2 ≡ names
          → All IsOffered (paths_of root names)
          → IsLinked c
          → (d : ZkClient Z) × (get_all_services Z J now connect root c ≡ some (d, true))
            × IsLinked d
            × ((j : Str) → get j d.cache ≡ overlaid (paths_of root names) j (get j c.cache))
      unfolding get_all_services root_read save_state
      All-refreshed root names c ok found o k =
          let saved : ZkClient Z =
            save_state Z root k_type_get_root [] (moved Z (Z.zoo_wget_children root c.world).0 c) in
          let (d, e, linked, read) =
            services_refreshed (paths_of root names) saved o
              (record { up = k.up; handle = k.handle; valid = k.valid }) in
          (
            d,
            bind_known _ _ (c, true) (ensure-true Z J now connect c k.up)
                ∙ ap (root_read Z J now connect root) (wget_children_linked Z root c k.handle)
                ∙ rw (ok, found) e,
            linked,
            read,
          )
