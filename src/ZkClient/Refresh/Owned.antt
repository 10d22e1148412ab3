-- ===== src/ZkClient/Refresh/Owned.antt =====
-- Whose the watches are after `get_service` of core/ZkClient.cpp.
use mathlib.Core.Option
use sfproxy.Prelude.{
  ℕ, ◌≡◌, refl, ◌∙◌, subst, inl, inr, true, Option, some, List, [], ◌∷◌, ◌++◌, All, Str,
  str_eq_refl,
}
use sfproxy.Json.{Rapidjson}
use sfproxy.Zookeeper.{Zookeeper, zok}
use sfproxy.OrderedMap.{find}
use sfproxy.Registry.{Registry}
use sfproxy.StateBag.{
  ZkState, StateBag, create_key, key, get, add, set_client_id, k_type_get_service,
  k_type_get_service_instance,
}
use sfproxy.StateBag.Owners.{get-add_state}
use sfproxy.ZkClient.{ZkClient, save_state}
use sfproxy.ZkClient.Calls.{slash, get_instances, get_service}
use sfproxy.ZkClient.Healthy.{bind_known, moved, Tends, Tends-refl, Tends-trans, Tends-add}
use sfproxy.ZkClient.Refresh.{Describes, stored, read_one, listed, emptied, children_read}

-- The watch of that key is there, and the client watches it.
abbrev pub Owns : ℕ → Str → StateBag → Type 0
Owns id k bag = (s : ZkState) × (find k bag ≡ some s) × (s.client_id ≡ id)

Owns-added : (s : ZkState) (bag : StateBag) → Owns s.client_id (key s) (add s bag)
unfolding get
Owns-added s bag =
    let w : ZkState = set_client_id s.client_id (Option.get_or (get (key s) bag) s) in
    (w, get-add_state s bag (key s) ∙ rw (str_eq_refl (key s)) refl, refl)

pub Owns-Tends : (id : ℕ) (k : Str) (b b' : StateBag) → Tends id b b' → Owns id k b → Owns id k b'
Owns-Tends id k b b' tends (s, e, own) =
    let (t, f, owner) = tends k s e in
    (t, f, elim owner [ inl kept ↦ kept ∙ own | inr taken ↦ taken ])

module _ (Z : Zookeeper) where
  -- A client that is still linked, and whose watches have at most become its own.
  pub record Follows (c d : ZkClient Z) : Type 0 where
    pub up : d.connected ≡ true
    pub handle : d.handle ≡ true
    pub same : d.id ≡ c.id
    pub tends : Tends c.id c.states d.states

  pub Follows-trans : (c d e : ZkClient Z) → Follows c d → Follows d e → Follows c e
  Follows-trans c d e h k = record {
    up = k.up;
    handle = k.handle;
    same = k.same ∙ h.same;
    tends =
        Tends-trans c.id c.states d.states e.states h.tends
          (subst (λ id. Tends id d.states e.states) h.same k.tends);
  }

  -- The call of ZooKeeper, and then the state of the watch.
  pub save_state-Follows :
      (path text : Str) (type : ℕ) (w : Z.World) (c : ZkClient Z)
      → c.connected ≡ true
      → c.handle ≡ true
      → let d = save_state Z path type text (moved Z w c) in
        Follows c d × Owns c.id (create_key path type) d.states
  unfolding save_state key
  save_state-Follows path text type w c up handle =
      let s : ZkState = record { client_id = c.id; type = type; path = path; text = text } in
      (
        record { up = up; handle = handle; same = refl; tends = Tends-add c.id s c.states refl },
        Owns-added s c.states,
      )

module _ (Z : Zookeeper) (J : Rapidjson) (now : ℕ) (connect : ZkClient Z → Option (ZkClient Z))
    (service : Str) (instance_of : Str → Registry) where
  abbrev pub instance_key : Str → Str
  instance_key name = create_key (service ++ (slash ++ name)) k_type_get_service_instance

  pub stored-Follows :
      (name : Str) (c : ZkClient Z)
      → c.connected ≡ true
      → c.handle ≡ true
      → let d = stored Z J now connect service instance_of name c in
        Follows Z c d × Owns c.id (instance_key name) d.states
  unfolding stored
  stored-Follows name c up handle =
      let (f, own) =
        save_state-Follows Z (service ++ (slash ++ name)) [] k_type_get_service_instance
          (Z.zoo_wget (service ++ (slash ++ name)) c.world).0 c up handle in
      (record { up = f.up; handle = f.handle; same = f.same; tends = f.tends }, own)

  get_instances-Follows :
      (names : List Str) (c : ZkClient Z)
      → All (Describes Z J now connect service instance_of) names
      → c.connected ≡ true
      → c.handle ≡ true
      → (d : ZkClient Z) × (get_instances Z J now connect service names c ≡ some d)
        × Follows Z c d
        × All (λ name. Owns c.id (instance_key name) d.states) names
  unfolding get_instances
  get_instances-Follows [] c h up handle = (
    c,
    refl,
    record { up = up; handle = handle; same = refl; tends = Tends-refl c.id c.states },
    tt,
  )
  get_instances-Follows (name ∷ names) c h up handle =
      let c1 = stored Z J now connect service instance_of name c in
      let (f1, own) = stored-Follows name c up handle in
      let (d, e, f2, all) = get_instances-Follows names c1 h.1 f1.up f1.handle in
      let moved_on = subst (λ id. Tends id c1.states d.states) f1.same f2.tends in
      (
        d,
        bind_known _ _ (c1, true)
              (read_one Z J now connect service instance_of name c h.0 up handle)
            ∙ e,
        Follows-trans Z c c1 d f1 f2,
        (
          Owns-Tends c.id (instance_key name) c1.states d.states moved_on own,
          subst (λ id. All (λ n. Owns id (instance_key n) d.states) names) f1.same all,
        ),
      )

  -- After a reading of a service whose nodes are all there, the client watches the service and each of
  -- its instances.
  pub get_service-Follows :
      (name : Str) (names : List Str) (c : ZkClient Z)
      → c.connected ≡ true
      → c.handle ≡ true
      → (Z.zoo_wget_children service c.world).1 ≡ zok
      → (Z.zoo_wget_children service c.world).2 ≡ name ∷ names
      → All (Describes Z J now connect service instance_of) (name ∷ names)
      → (d : ZkClient Z) × (get_service Z J now connect service c ≡ some (d, true))
        × Follows Z c d
        × Owns c.id (create_key service k_type_get_service) d.states
        × All (λ n. Owns c.id (instance_key n) d.states) (name ∷ names)
  unfolding emptied listed
  get_service-Follows name names c up handle ok found describes =
      let start : ZkClient Z = emptied Z J now connect service instance_of c in
      let (f, own) =
        save_state-Follows Z service [] k_type_get_service (Z.zoo_wget_children service c.world).0 c
          up handle in
      let f1 : Follows Z c start = record {
        up = f.up;
        handle = f.handle;
        same = f.same;
        tends = f.tends;
      } in
      let (d, e, f2, all) = get_instances-Follows (name ∷ names) start describes f1.up f1.handle in
      (
        d,
        children_read Z J now connect service instance_of name names c d up handle ok found e,
        Follows-trans Z c start d f1 f2,
        Owns-Tends c.id (create_key service k_type_get_service) start.states d.states
            (subst (λ id. Tends id start.states d.states) f1.same f2.tends) own,
        subst (λ id. All (λ n. Owns id (instance_key n) d.states) (name ∷ names)) f1.same all,
      )
