-- ===== src/Server/Check.antt =====
-- What `check` of core/ServerHandler.cpp leaves in the cache when ZooKeeper answers.
use sfproxy.Prelude.{
  ℕ, ◌≡◌, sym, ap, ◌∙◌, subst, true, Option, none, some, List, [], if◌then◌else◌, ◌>>=◌, All, Str,
}
use sfproxy.Prelude.{Returns, Returns-bind, Returns-map}
use sfproxy.Json.{Rapidjson}
use sfproxy.Zookeeper.{Zookeeper, zok}
use sfproxy.StateBag.{StateBag}
use sfproxy.Client.{Client}
use sfproxy.Registry.{Registry}
use sfproxy.Cache.{is_nil}
use sfproxy.Cache
use sfproxy.Cache.Invariant.{IsValid}
use sfproxy.Cache.Overdue.{fresh}
use sfproxy.ZkClient.Connect.{connect_zk, keys_of, take_over_states}
use sfproxy.ZkClient.Connect
use sfproxy.ZkClient.Healthy.{bind_known}
use sfproxy.ZkClient.RefreshAll.{IsOffered, paths_of}
use sfproxy.Handler.{ServerHandler}
use sfproxy.Server.{Server, on_client, open_one, close_one}
use sfproxy.Server.Tasks.{reload_services, load_if_empty, close_any, check}
use sfproxy.Server.Held.{Has, close_one-Returns, open_one-Returns}
use sfproxy.Server.Fetch.{IsIdling}
use sfproxy.Server.Reload.{IsFresh, IsReloaded, reloaded, looked}

module _ (Z : Zookeeper) (J : Rapidjson) (fuel : ℕ) where
  module _ (first : Str → Str) (rest : Str → List Str) (instance_of : Str → Str → Registry)
      (names : List Str) (now later : ℕ) (h : ServerHandler) where
    -- ZooKeeper has the root and the services below it, and every instance is newer than the start of the
    -- reading.
    pub record IsServing (w : Z.World) : Type 0 where
      pub root : (Z.zoo_get h.root w).1 ≡ zok
      pub ok : (Z.zoo_wget_children h.root (Z.zoo_get h.root w).0).1 ≡ zok
      pub found : (Z.zoo_wget_children h.root (Z.zoo_get h.root w).0).2 ≡ names
      pub offered :
          All
            (IsOffered first rest instance_of Z J later (connect_zk Z J later fuel))
            (paths_of h.root names)
      pub new : All (IsFresh first rest instance_of now) (paths_of h.root names)

    abbrev Kept : ℕ → Server Z → Type 0
    Kept a t =
        IsReloaded Z J fuel first rest instance_of names now later h t.handler.cache
        × ((c : Client) × (t.pool.heap a ≡ some c))

    found_root :
        (start : ℕ) (w : Z.World) (bag : StateBag) (a : ℕ) (s : Server Z)
        → IsValid h.cache
        → keys_of 0 bag ≡ []
        → IsServing w
        → Has Z a h w bag s
        → Returns (Kept a) (do
          (s2, there) ← on_client Z (Connect.check Z J start fuel s.handler.root) a s
          if there then reload_services Z J fuel now later a s2 else load_if_empty Z J fuel now s2)
    found_root start w bag a s valid owned v k =
        let (s2, e, k2) =
          looked Z J fuel first rest instance_of names now later h start w bag a s owned v.root k in
        subst (Returns (Kept a)) (sym (bind_known _ _ (s2, true) e)) (
          reloaded Z J fuel first rest instance_of names now later h (Z.zoo_get h.root w).0 bag a s2
            valid v.ok v.found v.offered v.new k2)

    given_back :
        (a : ℕ) (s : Server Z)
        → Kept a s
        → Returns
            (λ (t : Server Z).
              IsReloaded Z J fuel first rest instance_of names now later h t.handler.cache)
            (close_one Z a s)
    given_back a s (read, (c, there)) =
        Returns-map (λ (t : Server Z). t.handler ≡ s.handler)
          (λ (t : Server Z).
            IsReloaded Z J fuel first rest instance_of names now later h t.handler.cache)
          (close_one Z a s) (close_one-Returns Z a c s there)
          (λ t e j. ap (λ (x : ServerHandler). Cache.get j x.cache) e ∙ read j)

    with_client :
        (start : ℕ) (w : Z.World) (bag : StateBag) (a : ℕ) (o : Option ℕ) (s1 : Server Z)
        → IsValid h.cache
        → keys_of 0 bag ≡ []
        → IsServing w
        → o ≡ some a
        → Has Z a h w bag s1
        → Returns
            (λ (t : Server Z).
              IsReloaded Z J fuel first rest instance_of names now later h t.handler.cache)
            (do
              s3 ← elim o [
                | none ↦ load_if_empty Z J fuel now s1
                | some b ↦ do
                  (s2, there) ← on_client Z (Connect.check Z J start fuel s1.handler.root) b s1
                  if there
                      then reload_services Z J fuel now later b s2
                      else load_if_empty Z J fuel now s2
              ]
              close_any Z o s3)
    with_client start w bag a none s1 valid owned v e k = cc
    with_client start w bag a (some b) s1 valid owned v e k =
        let same : b ≡ a = cc in
        Returns-bind (Kept b)
          (λ (t : Server Z).
            IsReloaded Z J fuel first rest instance_of names now later h t.handler.cache)
          _ _
          (found_root start w bag b s1 valid owned v (subst (λ x. Has Z x h w bag s1) (sym same) k))
          (λ s3 r. given_back b s3 r)

  -- Between requests (a valid pool that is not full, whose first idle client is connected, a valid cache,
  -- and no watch without a client), where ZooKeeper has the root, the services below it, and for each
  -- service nodes that describe complete instances of different endpoints, none of them older than the
  -- start of the reading: `check` returns. Afterwards the cache has for each service below the root exactly
  -- the instances of its nodes, whatever it had before; of any other service it has what is not overdue.
  pub check-refreshes :
      (first : Str → Str) (rest : Str → List Str) (instance_of : Str → Str → Registry)
      (names : List Str) (fresh start now later a : ℕ) (idle : List ℕ) (c : Client) (s : Server Z)
      → IsIdling Z J fuel a idle c s
      → keys_of 0 s.pool.state_bag ≡ []
      → IsServing first rest instance_of names now later s.handler s.world
      → Returns
          (λ (t : Server Z).
            IsReloaded Z J fuel first rest instance_of names now later s.handler t.handler.cache)
          (check Z J fuel fresh start now later s)
  unfolding check
  check-refreshes first rest instance_of names fresh start now later a idle c s i owned v =
      Returns-bind
        (λ (x : Server Z × Option ℕ).
          (x.1 ≡ some a) × Has Z a s.handler s.world s.pool.state_bag x.0)
        (λ (t : Server Z).
          IsReloaded Z J fuel first rest instance_of names now later s.handler t.handler.cache)
        (open_one Z J fuel fresh start s) _
        (open_one-Returns Z J fuel fresh start a idle c s i.pool i.room i.waiting i.handle)
        (λ (s1, o) (e, k).
          with_client first rest instance_of names now later s.handler start s.world
            s.pool.state_bag a o s1 i.cache owned v e k)
