-- ===== src/ZkClient/Upkeep.antt =====
-- The client and its watches under the operations of core/ZkClient.cpp while ZooKeeper keeps the
-- session.
use sfproxy.Prelude.{
  ℕ, refl, sym, ap, ◌∙◌, subst, inl, inr, Bool, true, false, Option, none, some, List, [], ◌∷◌,
  ◌++◌, ◌==◌, ◌>>=◌, Bool-cases, Str, ℤ, eq_ℤ,
}
use sfproxy.Json.{Rapidjson}
use sfproxy.Zookeeper.{Zookeeper, zok}
use sfproxy.Cache
use sfproxy.Cache.{remove_name}
use sfproxy.StateBag.{
  StateBag, ZkState, k_type_create_ephereral, k_type_get_service, k_type_get_service_instance,
  k_type_get_root,
}
use sfproxy.ZkClient.{ZkClient, save_state, wget, create_node}
use sfproxy.ZkClient.Calls.{
  slash, split_last, ensure, blank, add_node, instance_read, get_service_instance,
  get_service_instance_at, get_instances, refresh, service_read, get_service, get_services,
  root_read, get_all_services, node_created, create_enode,
}
use sfproxy.ZkClient.Connect.{dropping, restore_state}
use sfproxy.Prelude.{either}
use sfproxy.ZkClient.Healthy.{
  Sure, Sure-bind, Tends-trans, Tends-add, IsHealthy, IsUp, ensure-true, moved-IsUp, wget_linked,
  wget_children_linked, create_node_linked,
}

module _ (Z : Zookeeper) (J : Rapidjson) (healthy : IsHealthy Z J) (now : ℕ)
    (connect : ZkClient Z → Option (ZkClient Z)) (id : ℕ) (b : StateBag) where
  abbrev IsUpFor {ℓ} : {A : Type ℓ} → ZkClient Z × A → Type 0
  IsUpFor r = IsUp Z id b r.0

  save_state-IsUp :
      (path : Str) (type : ℕ) (text : Str) (c : ZkClient Z)
      → IsUp Z id b c
      → IsUp Z id b (save_state Z path type text c)
  unfolding save_state
  save_state-IsUp path type text c h = record {
    up = h.up;
    linked = h.linked;
    same = h.same;
    tends = Tends-trans id b c.states _ h.tends (Tends-add id _ c.states h.same);
  }

  ensure_up {ℓ} :
      {A : Type ℓ} (Q : A → Type ℓ) (c : ZkClient Z) (f : ZkClient Z × Bool → Option A)
      → IsUp Z id b c
      → Sure Q (f (c, true))
      → Sure Q (ensure Z J now connect c >>= f)
  ensure_up Q c f h (x, e, q) = (x, ap (λ o. o >>= f) (ensure-true Z J now connect c h.up) ∙ e, q)

  add_node-IsUp :
      (service name path : Str) (w : Z.World) (ctime : ℕ) (c : ZkClient Z)
      → IsUp Z id b c
      → Sure (IsUp Z id b) (add_node Z J now connect service name (Z.zoo_wget path w).2 ctime c)
  unfolding add_node
  add_node-IsUp service name path w ctime c h =
      let (s, e, fill) = healthy.readable path w in
      let (r, f) = fill (blank Z J now connect service name ctime) in
      (
        record c { cache = Cache.add r c.cache },
        rw e (rw f refl),
        record { up = h.up; linked = h.linked; same = h.same; tends = h.tends },
      )

  -- A node that was read, or that gave an answer that `get_service_instance` passes over.
  instance_read-IsUp :
      (service name path : Str) (w : Z.World) (c : ZkClient Z)
      → IsUp Z id b c
      → let r = Z.zoo_wget path w in
        Sure IsUpFor (instance_read Z J now connect service name (c, r.1, r.2, r.3))
  unfolding instance_read
  instance_read-IsUp service name path w c h =
      let saved = save_state-IsUp (service ++ (slash ++ name)) k_type_get_service_instance [] c h in
      elim (Bool-cases (eq_ℤ (Z.zoo_wget path w).1 zok)) [
        | inl ok ↦ rw ok (
            Sure-bind (IsUp Z id b) IsUpFor _ _
              (add_node-IsUp service name path w (Z.zoo_wget path w).3 _ saved)
              (λ d k. ((d, true), refl, k)))
        | inr passed ↦ (
          (save_state Z (service ++ (slash ++ name)) k_type_get_service_instance [] c, true),
          rw (passed, (healthy.wget_kept path w).0, (healthy.wget_kept path w).1) refl,
          saved,
        )
      ]

  get_service_instance-IsUp :
      (service name : Str) (c : ZkClient Z)
      → IsUp Z id b c
      → Sure IsUpFor (get_service_instance Z J now connect service name c)
  unfolding get_service_instance
  get_service_instance-IsUp service name c h = ensure_up IsUpFor c _ h (
      subst (λ r. Sure IsUpFor (instance_read Z J now connect service name r))
        (sym (wget_linked Z (service ++ (slash ++ name)) c h.linked))
        (instance_read-IsUp service name (service ++ (slash ++ name)) c.world _
          (moved-IsUp Z id b _ c h)))

  get_service_instance_at-IsUp :
      (path : Str) (c : ZkClient Z)
      → IsUp Z id b c
      → Sure IsUpFor (get_service_instance_at Z J now connect path c)
  unfolding get_service_instance_at
  get_service_instance_at-IsUp path c h = pick (split_last path)
    where
      pick :
          (o : Option (Str × Str))
          → Sure IsUpFor (elim o [
            | none ↦ some (c, true)
            | some (service, name) ↦ get_service_instance Z J now connect service name c
          ])
      pick none = ((c, true), refl, h)
      pick (some (service, name)) = get_service_instance-IsUp service name c h

  get_instances-IsUp :
      (service : Str) (names : List Str) (c : ZkClient Z)
      → IsUp Z id b c
      → Sure (IsUp Z id b) (get_instances Z J now connect service names c)
  unfolding get_instances
  get_instances-IsUp service [] c h = (c, refl, h)
  get_instances-IsUp service (name ∷ names) c h =
      Sure-bind IsUpFor (IsUp Z id b) (get_service_instance Z J now connect service name c) _
        (get_service_instance-IsUp service name c h)
        (λ (d, _) k. get_instances-IsUp service names d k)

  refresh-IsUp :
      (service : Str) (names : List Str) (c : ZkClient Z)
      → IsUp Z id b c
      → Sure (IsUp Z id b) (refresh Z J now connect service names c)
  unfolding refresh
  refresh-IsUp service [] c h = (c, refl, h)
  refresh-IsUp service (name ∷ names) c h =
      get_instances-IsUp service (name ∷ names) (record c { cache = remove_name service c.cache })
        (record { up = h.up; linked = h.linked; same = h.same; tends = h.tends })

  service_read-IsUp :
      (service : Str) (w : Z.World) (c : ZkClient Z)
      → IsUp Z id b c
      → let r = Z.zoo_wget_children service w in
        Sure IsUpFor (service_read Z J now connect service (c, r.1, r.2))
  unfolding service_read
  service_read-IsUp service w c h =
      let saved = save_state-IsUp service k_type_get_service [] c h in
      elim (Bool-cases (eq_ℤ (Z.zoo_wget_children service w).1 zok)) [
        | inl ok ↦ rw ok (
            Sure-bind (IsUp Z id b) IsUpFor _ _
              (refresh-IsUp service (Z.zoo_wget_children service w).2 _ saved)
              (λ d k. ((d, true), refl, k)))
        | inr passed ↦ (
          (save_state Z service k_type_get_service [] c, false),
          rw (passed, (healthy.children_kept service w).0, (healthy.children_kept service w).1)
              refl,
          saved,
        )
      ]

  get_service-IsUp :
      (service : Str) (c : ZkClient Z)
      → IsUp Z id b c
      → Sure IsUpFor (get_service Z J now connect service c)
  unfolding get_service
  get_service-IsUp service c h = ensure_up IsUpFor c _ h (
      subst (λ r. Sure IsUpFor (service_read Z J now connect service r))
        (sym (wget_children_linked Z service c h.linked))
        (service_read-IsUp service c.world _ (moved-IsUp Z id b _ c h)))

  get_services-IsUp :
      (paths : List Str) (c : ZkClient Z)
      → IsUp Z id b c
      → Sure IsUpFor (get_services Z J now connect paths c)
  unfolding get_services
  get_services-IsUp [] c h = ((c, true), refl, h)
  get_services-IsUp (path ∷ paths) c h =
      Sure-bind IsUpFor IsUpFor (get_service Z J now connect path c) _ (get_service-IsUp path c h)
        (λ (d, ret) k.
          either (Sure IsUpFor) ret _ _ (get_services-IsUp paths d k) ((d, false), refl, k))

  root_read-IsUp :
      (root : Str) (w : Z.World) (c : ZkClient Z)
      → IsUp Z id b c
      → let r = Z.zoo_wget_children root w in
        Sure IsUpFor (root_read Z J now connect root (c, r.1, r.2))
  unfolding root_read
  root_read-IsUp root w c h =
      let saved = save_state-IsUp root k_type_get_root [] c h in
      elim (Bool-cases (eq_ℤ (Z.zoo_wget_children root w).1 zok)) [
        | inl ok ↦ rw ok (get_services-IsUp _ _ saved)
        | inr passed ↦ (
          (save_state Z root k_type_get_root [] c, false),
          rw (passed, (healthy.children_kept root w).1) refl,
          saved,
        )
      ]

  get_all_services-IsUp :
      (root : Str) (c : ZkClient Z)
      → IsUp Z id b c
      → Sure IsUpFor (get_all_services Z J now connect root c)
  unfolding get_all_services
  get_all_services-IsUp root c h = ensure_up IsUpFor c _ h (
      subst (λ r. Sure IsUpFor (root_read Z J now connect root r))
        (sym (wget_children_linked Z root c h.linked))
        (root_read-IsUp root c.world _ (moved-IsUp Z id b _ c h)))

  wget-IsUp : (path : Str) (c : ZkClient Z) → IsUp Z id b c → IsUp Z id b (wget Z path c).0
  wget-IsUp path c h =
      subst (λ (r : ZkClient Z × ℤ × Str × ℕ). IsUp Z id b r.0)
        (sym (wget_linked Z path c h.linked)) (moved-IsUp Z id b _ c h)

  node_created-IsUp :
      (path text : Str) (w : Z.World) (c : ZkClient Z)
      → IsUp Z id b c
      → IsUp Z id b
          (node_created Z J now connect path text (c, (Z.zoo_create path text true w).1)).0
  unfolding node_created
  node_created-IsUp path text w c h = wget-IsUp path _ (
      rw ((healthy.create_kept path text true w).0, (healthy.create_kept path text true w).1)
        (save_state-IsUp path k_type_create_ephereral text c h))

  create_enode-IsUp :
      (path text : Str) (c : ZkClient Z)
      → IsUp Z id b c
      → Sure IsUpFor (create_enode Z J now connect path text c)
  unfolding create_enode
  create_enode-IsUp path text c h = ensure_up IsUpFor c _ h (
    node_created Z J now connect path text (create_node Z path text true c),
    refl,
    subst (λ r. IsUp Z id b (node_created Z J now connect path text r).0)
        (sym (create_node_linked Z path text true c h.linked))
        (node_created-IsUp path text c.world _ (moved-IsUp Z id b _ c h)),
  )

  dropping-IsUp {ℓ} :
      {A : Type ℓ} (r : Option (ZkClient Z × A)) → Sure IsUpFor r → Sure (IsUp Z id b) (dropping r)
  dropping-IsUp r (x, e, h) = (x.0, ap dropping e, h)

  pub restore_state-IsUp :
      (s : ZkState) (c : ZkClient Z)
      → IsUp Z id b c
      → Sure (IsUp Z id b) (restore_state Z J now connect s c)
  unfolding restore_state
  restore_state-IsUp s c h =
      either (Sure (IsUp Z id b)) (s.type == k_type_create_ephereral) _ _
        (dropping-IsUp _ (create_enode-IsUp s.path s.text c h))
        (either (Sure (IsUp Z id b)) (s.type == k_type_get_service) _ _
          (dropping-IsUp _ (get_service-IsUp s.path c h))
          (either (Sure (IsUp Z id b)) (s.type == k_type_get_service_instance) _ _
            (dropping-IsUp _ (get_service_instance_at-IsUp s.path c h))
            (either (Sure (IsUp Z id b)) (s.type == k_type_get_root) _ _
              (dropping-IsUp _ (get_all_services-IsUp s.path c h)) (c, refl, h))))
