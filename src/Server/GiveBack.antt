-- ===== src/Server/GiveBack.antt =====
-- All tasks of core/ServerHandler.cpp: what they take from the pool, and what they leave in the cache.
use sfproxy.Prelude.{
  ℕ, ◌≡◌, refl, subst, Bool, true, false, Option, none, some, [], ◌==◌, if◌then◌else◌, ◌>>=◌, Str,
  codes,
}
use sfproxy.Prelude.{Post, Post-bind, Post-bind_any, either}
use sfproxy.Json.{Rapidjson}
use sfproxy.Zookeeper.{Zookeeper}
use sfproxy.Pool.{Pool}
use sfproxy.Cache.{RegistryCache, remove_overdue, collect, from_file}
use sfproxy.Cache
use sfproxy.Cache.Storage.{load_file}
use sfproxy.Cache.Invariant.{IsValid, remove_all-IsValid}
use sfproxy.ZkClient.{ZkClient}
use sfproxy.ZkClient.Calls.{get_all_services}
use sfproxy.ZkClient.Connect.{connect_zk}
use sfproxy.ZkClient.Connect
use sfproxy.ZkClient.Validity.{
  IsSound, IsSoundFor, Keeps, get_all_services-Keeps, create_pnode-Keeps, create_enode-Keeps,
}
use sfproxy.ZkClient.Survival.{connect_zk-IsSound, check-Keeps}
use sfproxy.Server.{Server, on_client, open_one, close_one}
use sfproxy.Server.Borrow.{Holds, Back, Opened, on_client-Holds, close_one-Back}
use sfproxy.Server.Tasks.{
  close_any, is_connected, save_cache, load_cache, get_service_from_zk, keep_awake, probe,
  server_status, save_task, reload_services, load_if_empty, check, warm, create_self, register_self,
  self_path,
}
use sfproxy.Server.Safety.{
  IsReady, load_file-IsValid, opened, get_service_from_zk-Back, keep_awake-Back, probe-Back,
}

module _ (Z : Zookeeper) (J : Rapidjson) (fuel : ℕ) where
  pub server_status-Back :
      (fresh now w t : ℕ) (s : Server Z)
      → IsReady Z fresh s
      → Post (λ (x : Server Z × ℕ). Back Z s.pool x.0) (server_status Z J fuel fresh now w t s)
  unfolding server_status
  server_status-Back fresh now w t s r =
      Post-bind (λ (x : Server Z × Option Bool). Back Z s.pool x.0)
        (λ (x : Server Z × ℕ). Back Z s.pool x.0) (probe Z J fuel fresh now s) _
        (probe-Back Z J fuel fresh now s r) (λ x k. k)

  pub save_task-Back :
      (time_0 fresh now w t : ℕ) (s : Server Z)
      → IsReady Z fresh s
      → Post (Back Z s.pool) (save_task Z J fuel time_0 fresh now w t s)
  unfolding save_task save_cache
  save_task-Back time_0 fresh now w t s r =
      Post-bind (λ (x : Server Z × ℕ). Back Z s.pool x.0) (Back Z s.pool)
        (server_status Z J fuel fresh now w t s) _ (server_status-Back fresh now w t s r)
        (λ (s1, bits) k.
          either (Back Z s.pool) (bits == 0) _ _
            (record { good = k.good; valid = k.valid; count = k.count }) k)

  -- The services are read while the client is held.
  reload_services-Holds :
      (now later a : ℕ) (p0 : Pool) (s : Server Z)
      → Holds Z p0 a s
      → Post (Holds Z p0 a) (reload_services Z J fuel now later a s)
  unfolding reload_services remove_overdue
  reload_services-Holds now later a p0 s h =
      let connect = connect_zk Z J later fuel in
      Post-bind _ (Holds Z p0 a)
        (on_client Z (get_all_services Z J later connect s.handler.root) a s) _
        (on_client-Holds Z (get_all_services Z J later connect s.handler.root) p0 a s
          (get_all_services-Keeps Z J later connect (connect_zk-IsSound Z J later fuel)
            s.handler.root)
          h)
        (λ (s', _) k. record {
          good = k.good;
          valid = remove_all-IsValid (collect now s'.handler.cache) s'.handler.cache k.valid;
          lent = k.lent;
          count = k.count;
        })

  load_if_empty-Holds :
      (now a : ℕ) (p0 : Pool) (s : Server Z)
      → Holds Z p0 a s
      → Post (Holds Z p0 a) (load_if_empty Z J fuel now s)
  unfolding load_if_empty load_cache
  load_if_empty-Holds now a p0 s h =
      either (Post (Holds Z p0 a)) (Cache.size s.handler.cache == 0) _ _
        (Post-bind IsValid (Holds Z p0 a) (load_file J now s.cache_file_name s.disk s.handler.cache)
          _ (load_file-IsValid J now s.cache_file_name s.disk s.handler.cache h.valid)
          (λ c v. record { good = h.good; valid = v; lent = h.lent; count = h.count }))
        h

  check_held :
      (start now later a : ℕ) (p0 : Pool) (s1 : Server Z)
      → Holds Z p0 a s1
      → Post (Holds Z p0 a) (do
        (s2, there) ← on_client Z (Connect.check Z J start fuel s1.handler.root) a s1
        if there then reload_services Z J fuel now later a s2 else load_if_empty Z J fuel now s2)
  check_held start now later a p0 s1 h =
      Post-bind _ (Holds Z p0 a) (on_client Z (Connect.check Z J start fuel s1.handler.root) a s1) _
        (on_client-Holds Z (Connect.check Z J start fuel s1.handler.root) p0 a s1
          (check-Keeps Z J start fuel s1.handler.root) h)
        (λ (s2, there) k.
          either (Post (Holds Z p0 a)) there _ _ (reload_services-Holds now later a p0 s2 k)
            (load_if_empty-Holds now a p0 s2 k))

  pub check-Back :
      (fresh start now later : ℕ) (s : Server Z)
      → IsReady Z fresh s
      → Post (Back Z s.pool) (check Z J fuel fresh start now later s)
  unfolding check
  check-Back fresh start now later s r =
      Post-bind (Opened Z s.pool) (Back Z s.pool) (open_one Z J fuel fresh start s) _
        (opened Z J fuel fresh start s r) (λ (s1, o) h. taken o s1 h)
    where
      taken :
          (o : Option ℕ) (s1 : Server Z)
          → Opened Z s.pool (s1, o)
          → Post (Back Z s.pool) (do
            s3 ← elim o [
              | none ↦ load_if_empty Z J fuel now s1
              | some a ↦ do
                (s2, there) ← on_client Z (Connect.check Z J start fuel s1.handler.root) a s1
                if there
                    then reload_services Z J fuel now later a s2
                    else load_if_empty Z J fuel now s2
            ]
            close_any Z o s3)
      taken none s1 h = absurd h
      taken (some a) s1 h =
          Post-bind (Holds Z s.pool a) (Back Z s.pool) _ _
            (check_held start now later a s.pool s1 h) (λ s3 k. close_one-Back Z s.pool a s3 k)

  pub warm-Back :
      (fresh start now later : ℕ) (s : Server Z)
      → IsReady Z fresh s
      → Post (Back Z s.pool) (warm Z J fuel fresh start now later s)
  unfolding warm load_cache
  warm-Back fresh start now later s r =
      Post-bind (λ (s1 : Server Z). (s1.pool ≡ s.pool) × IsReady Z fresh s1) (Back Z s.pool) _ _
        (Post-bind IsValid (λ (s1 : Server Z). (s1.pool ≡ s.pool) × IsReady Z fresh s1)
          (load_file J start s.cache_file_name s.disk s.handler.cache) _
          (load_file-IsValid J start s.cache_file_name s.disk s.handler.cache r.valid)
          (λ c v. (refl, record { good = r.good; valid = v; free = r.free; room = r.room })))
        (λ s1 (e, k).
          subst (λ p. Post (Back Z p) (check Z J fuel fresh start now later s1)) e
            (check-Back fresh start now later s1 k))

  create_self-Keeps :
      (now : ℕ) (path : Str) (c : ZkClient Z)
      → IsSound Z c
      → Keeps Z (create_self Z J fuel now path c)
  unfolding create_self
  create_self-Keeps now path c h =
      let connect = connect_zk Z J now fuel in
      let sound = connect_zk-IsSound Z J now fuel in
      Post-bind (IsSoundFor Z) (IsSoundFor Z) _ _
        (create_pnode-Keeps Z J now connect sound (codes "/soa") c h)
        (λ (c1, _) h1.
          Post-bind (IsSoundFor Z) (IsSoundFor Z) _ _
            (create_pnode-Keeps Z J now connect sound (codes "/soa/proxies") c1 h1)
            (λ (c2, _) h2. create_enode-Keeps Z J now connect sound path [] c2 h2))

  pub register_self-Back :
      (fresh now : ℕ) (s : Server Z)
      → IsReady Z fresh s
      → Post (Back Z s.pool) (register_self Z J fuel fresh now s)
  unfolding register_self
  register_self-Back fresh now s r =
      Post-bind (Opened Z s.pool) (Back Z s.pool) (open_one Z J fuel fresh now s) _
        (opened Z J fuel fresh now s r) (λ (s1, o) h. taken o s1 h)
    where
      after :
          (a : ℕ) (s1 : Server Z) (connected : Bool)
          → Holds Z s.pool a s1
          → Post (Holds Z s.pool a) (elim connected [
            | true ↦ do
              (s', _) ← on_client Z (create_self Z J fuel now (self_path Z s1)) a s1
              some s'
            | false ↦ some s1
          ])
      after a s1 true h =
          Post-bind _ (Holds Z s.pool a)
            (on_client Z (create_self Z J fuel now (self_path Z s1)) a s1) _
            (on_client-Holds Z (create_self Z J fuel now (self_path Z s1)) s.pool a s1
              (create_self-Keeps now (self_path Z s1)) h)
            (λ x k. k)
      after a s1 false h = h

      taken :
          (o : Option ℕ) (s1 : Server Z)
          → Opened Z s.pool (s1, o)
          → Post (Back Z s.pool) (elim o [
            | none ↦ some s1
            | some a ↦ do
              connected ← is_connected Z a s1
              s2 ← elim connected [
                | true ↦ do
                  (s', _) ← on_client Z (create_self Z J fuel now (self_path Z s1)) a s1
                  some s'
                | false ↦ some s1
              ]
              close_one Z a s2
          ])
      taken none s1 h = absurd h
      taken (some a) s1 h = Post-bind_any (Back Z s.pool) (is_connected Z a s1) _ (λ connected.
          Post-bind (Holds Z s.pool a) (Back Z s.pool) _ _ (after a s1 connected h)
            (λ s2 k. close_one-Back Z s.pool a s2 k))

  -- Whatever ZooKeeper answers: where a task runs alone on a valid pool that is not full, and returns, it
  -- gives back the client that it has taken: no client is lent afterwards that was not lent before, and
  -- there are no more clients than before, or one more than were lent. It leaves a pool that is valid and
  -- within its bound, and a valid cache. This holds of the reading of a service, of keeping awake, of
  -- `status`, of saving, of `check`, `warm` and `register_self`.
  pub tasks-Back :
      (fresh start now later time_0 w t : ℕ) (path : Str) (s : Server Z)
      → IsReady Z fresh s
      → Post (Back Z s.pool) (get_service_from_zk Z J fuel fresh now path s)
        × Post (Back Z s.pool) (keep_awake Z J fuel fresh now s)
        × Post (λ (x : Server Z × ℕ). Back Z s.pool x.0) (server_status Z J fuel fresh now w t s)
        × Post (Back Z s.pool) (save_task Z J fuel time_0 fresh now w t s)
        × Post (Back Z s.pool) (check Z J fuel fresh start now later s)
        × Post (Back Z s.pool) (warm Z J fuel fresh start now later s)
        × Post (Back Z s.pool) (register_self Z J fuel fresh now s)
  tasks-Back fresh start now later time_0 w t path s r = (
    get_service_from_zk-Back Z J fuel fresh now path s r,
    keep_awake-Back Z J fuel fresh now s r,
    server_status-Back fresh now w t s r,
    save_task-Back time_0 fresh now w t s r,
    check-Back fresh start now later s r,
    warm-Back fresh start now later s r,
    register_self-Back fresh now s r,
  )
