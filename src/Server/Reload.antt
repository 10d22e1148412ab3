-- ===== src/Server/Reload.antt =====
-- The steps of `check` of core/ServerHandler.cpp with a connected client.
use sfproxy.Prelude.{
  ℕ, ◌≡◌, refl, sym, ap, ◌∙◌, subst, inl, inr, true, false, Option, some, List, [], ◌∷◌, ltb, ◌==◌,
  Bool-cases, All, Str, str_eq,
}
use sfproxy.Prelude.{either, Returns}
use sfproxy.Json.{Rapidjson}
use sfproxy.Zookeeper.{Zookeeper, zok}
use sfproxy.StateBag.{StateBag}
use sfproxy.Client.{Client}
use sfproxy.Registry.{Registry}
use sfproxy.Cache.{is_nil}
use sfproxy.Cache
use sfproxy.Cache.Invariant.{IsValid}
use sfproxy.Cache.Overdue.{fresh, remove_overdue-purge}
use sfproxy.Cache.Refinement.{without_overdue, find-purge}
use sfproxy.ZkClient.{ZkClient, get_node}
use sfproxy.ZkClient.Calls.{get_all_services}
use sfproxy.ZkClient.Connect.{connect_zk, keys_of, take_over_states}
use sfproxy.ZkClient.Connect
use sfproxy.ZkClient.Healthy.{bind_known, ensure-true, moved}
use sfproxy.ZkClient.RefreshAll.{described, overlaid, IsOffered, paths_of, All-refreshed}
use sfproxy.ZkClient.Survival.{connect_zk-IsSound}
use sfproxy.Handler.{ServerHandler}
use sfproxy.Server.{Server, load, store, on_client}
use sfproxy.Server.Tasks.{set_cache, reload_services}
use sfproxy.Server.Held.{update_same, Has, on_client_known}

module _ (first : Str → Str) (rest : Str → List Str) (instance_of : Str → Str → Registry)
    (now : ℕ) where
  -- No instance of the service counts as overdue.
  abbrev pub IsFresh : Str → Type 0
  IsFresh path = All (λ r. ltb r.mtime now ≡ false) (described first rest instance_of path)

  fresh-All : (v : List Registry) → All (λ r. ltb r.mtime now ≡ false) v → fresh now v ≡ v
  fresh-All [] h = refl
  fresh-All (r ∷ v) h = rw (h.0) (ap (λ w. r ∷ w) (fresh-All v h.1))

  fresh_kept :
      (path : Str)
      → IsFresh path
      → without_overdue now (some (described first rest instance_of path))
        ≡ some (described first rest instance_of path)
  fresh_kept path h = rw (fresh-All (described first rest instance_of path) h) refl

  without_overdue-overlaid :
      (paths : List Str) (j : Str) (old : Option (List Registry))
      → All IsFresh paths
      → without_overdue now (overlaid first rest instance_of paths j old)
        ≡ overlaid first rest instance_of paths j (without_overdue now old)
  unfolding overlaid
  without_overdue-overlaid [] j old h = refl
  without_overdue-overlaid (path ∷ paths) j old h = elim (Bool-cases (str_eq path j)) [
    | inl own ↦ rw own (
        without_overdue-overlaid paths j (some (described first rest instance_of path)) h.1
        ∙ ap (overlaid first rest instance_of paths j) (fresh_kept path h.0))
    | inr other ↦ rw other (without_overdue-overlaid paths j old h.1)
  ]

module _ (Z : Zookeeper) (J : Rapidjson) (fuel : ℕ) where
  check_known :
      (start : ℕ) (root : Str) (c : ZkClient Z)
      → c.connected ≡ true
      → c.handle ≡ true
      → keys_of 0 c.states ≡ []
      → (Z.zoo_get root c.world).1 ≡ zok
      → Connect.check Z J start fuel root c ≡ some (moved Z (Z.zoo_get root c.world).0 c, true)
  unfolding Connect.check take_over_states get_node
  check_known start root c up handle owned ok =
      bind_known _ _ (c, true) (ensure-true Z J start (connect_zk Z J start fuel) c up)
      ∙ rw (owned, handle, ok) refl

  reload_known :
      (now later a : ℕ) (c : Client) (s : Server Z) (d : ZkClient Z)
      → s.pool.heap a ≡ some c
      → get_all_services Z J later (connect_zk Z J later fuel) s.handler.root (load Z a c s)
        ≡ some (d, true)
      → reload_services Z J fuel now later a s
        ≡ some (
            set_cache Z
              (Cache.remove_overdue now (store Z a c d s).handler.cache)
              (store Z a c d s))
  unfolding reload_services
  reload_known now later a c s d there e =
      bind_known _ _ (store Z a c d s, true)
        (on_client_known Z (get_all_services Z J later (connect_zk Z J later fuel) s.handler.root) a
          c s d true there e)

  module _ (first : Str → Str) (rest : Str → List Str) (instance_of : Str → Str → Registry)
      (names : List Str) (now later : ℕ) (h : ServerHandler) where
    -- The cache after the reading of all services.
    abbrev pub IsReloaded : Cache.RegistryCache → Type 0
    IsReloaded cache =
        (j : Str)
        → Cache.get j cache
          ≡ overlaid first rest instance_of (paths_of h.root names) j
              (without_overdue now (Cache.get j h.cache))

    pub reloaded :
        (w : Z.World) (bag : StateBag) (a : ℕ) (s : Server Z)
        → IsValid h.cache
        → (Z.zoo_wget_children h.root w).1 ≡ zok
        → (Z.zoo_wget_children h.root w).2 ≡ names
        → All
            (IsOffered first rest instance_of Z J later (connect_zk Z J later fuel))
            (paths_of h.root names)
        → All (IsFresh first rest instance_of now) (paths_of h.root names)
        → Has Z a h w bag s
        → Returns
            (λ (t : Server Z).
              IsReloaded t.handler.cache × ((c : Client) × (t.pool.heap a ≡ some c)))
            (reload_services Z J fuel now later a s)
    unfolding load store Cache.get
    reloaded w bag a s valid ok found offered new k =
        let z = load Z a k.client s in
        let same : s.handler.cache ≡ h.cache = ap (λ (x : ServerHandler). x.cache) k.handler in
        let root : s.handler.root ≡ h.root = ap (λ (x : ServerHandler). x.root) k.handler in
        let (d, e, linked, read) =
          All-refreshed first rest instance_of Z J later (connect_zk Z J later fuel)
            (connect_zk-IsSound Z J later fuel) h.root names z (rw k.world ok) (rw k.world found)
            offered
            (record { up = k.up; handle = k.handle; valid = subst IsValid (sym same) valid }) in
        let all : get_all_services Z J later (connect_zk Z J later fuel) s.handler.root z
            ≡ some (d, true) =
          subst (λ r. get_all_services Z J later (connect_zk Z J later fuel) r z ≡ some (d, true))
            (sym root) e in
        subst (Returns _) (sym (reload_known now later a k.client s d k.there all)) (
          (λ j.
              ap (Cache.get j) (remove_overdue-purge now d.cache linked.valid)
              ∙ find-purge now j d.cache linked.valid
              ∙ ap (without_overdue now) (read j)
              ∙ without_overdue-overlaid first rest instance_of now (paths_of h.root names) j
                  (Cache.get j s.handler.cache) new
              ∙ ap
                  (λ c.
                    overlaid first rest instance_of (paths_of h.root names) j
                      (without_overdue now (Cache.get j c)))
                  same),
          (
            record k.client { connected = d.connected; session_id = d.session_id },
            update_same s.pool.heap a _,
          ),
        )

    -- The connected client finds the root, and no watch without a client.
    pub looked :
        (start : ℕ) (w : Z.World) (bag : StateBag) (a : ℕ) (s : Server Z)
        → keys_of 0 bag ≡ []
        → (Z.zoo_get h.root w).1 ≡ zok
        → Has Z a h w bag s
        → (s2 : Server Z) × (on_client Z (Connect.check Z J start fuel s.handler.root) a s
            ≡ some (s2, true))
          × Has Z a h (Z.zoo_get h.root w).0 bag s2
    unfolding load store
    looked start w bag a s owned ok k =
        let root : s.handler.root ≡ h.root = ap (λ (x : ServerHandler). x.root) k.handler in
        let known =
          check_known start s.handler.root (load Z a k.client s) k.up k.handle (rw k.states owned)
            (rw (root, k.world) ok) in
        let z1 = moved Z (Z.zoo_get s.handler.root s.world).0 (load Z a k.client s) in
        (
          store Z a k.client z1 s,
          on_client_known Z (Connect.check Z J start fuel s.handler.root) a k.client s z1 true
              k.there known,
          record {
            client = k.client;
            there = update_same s.pool.heap a _;
            up = k.up;
            handle = either (λ x. x ≡ true) (a == a) _ _ k.handle k.handle;
            handler = k.handler;
            world = rw (root, k.world) refl;
            states = k.states;
          },
        )
