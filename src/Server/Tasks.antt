-- ===== src/Server/Tasks.antt =====
-- The tasks and requests of core/ServerHandler.cpp that take a client from the pool.
use sfproxy.Prelude.{
  ℕ, ◌/◌, ◌%◌, Bool, true, false, Option, none, some, [], ◌++◌, ◌==◌, if◌then◌else◌, ◌>>=◌, Str,
  codes, ℤ,
}
use sfproxy.Json.{Rapidjson}
use sfproxy.Zookeeper.{Zookeeper}
use sfproxy.Decimal.{show_ℤ}
use sfproxy.Pool.{Pool, reset, used, watcher_size}
use sfproxy.Pool
use sfproxy.Cache.{remove_overdue, clear}
use sfproxy.Cache
use sfproxy.Cache.Storage.{save, load_file}
use sfproxy.ZkClient.{ZkClient}
use sfproxy.ZkClient.Calls.{get_service, get_all_services, create_pnode, create_enode}
use sfproxy.ZkClient.Connect.{connect_zk}
use sfproxy.ZkClient.Connect
use sfproxy.Handler.{got_service, status}
use sfproxy.Server.{Server, on_client, open_one, close_one}

-- The text that `reset` answers with.
unfoldable pub report : ℕ → Str
report bits =
    (if bits % 2 == 1 then codes "fail to create zk conn; \n" else [])
    ++ ((if bits / 2 % 2 == 1 then codes "none watcher created; \n" else [])
        ++ ((if bits / 4 % 2 == 1 then codes "no service configured; \n" else [])
            ++ (if bits / 8 % 2 == 1 then codes "unable to create enough thread; \n" else [])))

module _ (Z : Zookeeper) where
  -- The node that `register_self` creates.
  abbrev pub self_path : Server Z → Str
  self_path s = codes "/soa/proxies/" ++ (s.hostname ++ (codes ":" ++ show_ℤ s.port))

  abbrev pub set_cache : Cache.RegistryCache → Server Z → Server Z
  set_cache cache s = record s { handler = record s.handler { cache = cache } }

  -- `if (c) c->close()`.
  abbrev pub close_any : Option ℕ → Server Z → Option (Server Z)
  close_any none s = some s
  close_any (some a) s = close_one Z a s

  -- `c->get_connected()`.
  abbrev pub is_connected : ℕ → Server Z → Option Bool
  is_connected a s = do c ← s.pool.heap a; some c.connected

  -- `save`.
  unfoldable pub save_cache : ℕ → Server Z → Server Z
  unfolding save
  save_cache time_0 s = record s { disk = (save time_0 s.cache_file_name s.handler.cache s.disk).0 }

  module _ (J : Rapidjson) (fuel : ℕ) where
    -- `cache->from_file(cache_file_name)`.
    unfoldable pub load_cache : ℕ → Server Z → Option (Server Z)
    unfolding load_file
    load_cache now s = do
      cache ← load_file J now s.cache_file_name s.disk s.handler.cache
      some (set_cache cache s)

    unfoldable pub get_service_from_zk : ℕ → ℕ → Str → Server Z → Option (Server Z)
    unfolding open_one close_one on_client get_service connect_zk got_service
    get_service_from_zk fresh now zkpath s = do
      (s1, o) ← open_one Z J fuel fresh now s
      s2 ← elim o [
        | none ↦ some s1
        | some a ↦ do
          (s', _) ← on_client Z (get_service Z J now (connect_zk Z J now fuel) zkpath) a s1
          close_one Z a s'
      ]
      some (record s2 { handler = got_service zkpath s2.handler.cache s2.handler })

    unfoldable pub keep_awake : ℕ → ℕ → Server Z → Option (Server Z)
    unfolding open_one close_one used
    keep_awake fresh now s =
        if used s.pool == 0
        then (do (s1, o) ← open_one Z J fuel fresh now s; close_any o s1)
        else some s

    -- The first part of `status`: the client, if the pool is not empty.
    unfoldable pub probe : ℕ → ℕ → Server Z → Option (Server Z × Option Bool)
    unfolding open_one close_one
    probe fresh now s = if Pool.size s.pool == 0 then some (s, none) else (do
      (s1, o) ← open_one Z J fuel fresh now s
      elim o [
        | none ↦ some (s1, none)
        | some a ↦ do
          connected ← is_connected a s1
          s2 ← close_one Z a s1
          some (s2, some connected)
      ])

    unfoldable pub server_status : ℕ → ℕ → ℕ → ℕ → Server Z → Option (Server Z × ℕ)
    unfolding probe status
    server_status fresh now worker_count thread_count s = do
      (s1, client) ← probe fresh now s
      some (
        s1,
        status (Pool.size s.pool) client (Cache.size s1.handler.cache) (watcher_size s1.pool)
            worker_count thread_count,
      )

    -- `SaveTask::dorun`.
    unfoldable pub save_task : ℕ → ℕ → ℕ → ℕ → ℕ → Server Z → Option (Server Z)
    unfolding server_status save_cache
    save_task time_0 fresh now worker_count thread_count s = do
      (s1, bits) ← server_status fresh now worker_count thread_count s
      some (if bits == 0 then save_cache time_0 s1 else s1)

    -- What `check` does with a client for which the root can be read: `now` is the reading of the clock
    -- before the services are read, `later` the readings during that.
    unfoldable pub reload_services : ℕ → ℕ → ℕ → Server Z → Option (Server Z)
    unfolding on_client get_all_services connect_zk
    reload_services now later a s = do
      (s', _) ←
          on_client Z (get_all_services Z J later (connect_zk Z J later fuel) s.handler.root) a s
      some (set_cache (remove_overdue now s'.handler.cache) s')

    unfoldable pub load_if_empty : ℕ → Server Z → Option (Server Z)
    unfolding load_cache
    load_if_empty now s = if Cache.size s.handler.cache == 0 then load_cache now s else some s

    unfoldable pub check : ℕ → ℕ → ℕ → ℕ → Server Z → Option (Server Z)
    unfolding open_one close_one reload_services load_if_empty on_client Connect.check
    check fresh start now later s = do
      (s1, o) ← open_one Z J fuel fresh start s
      s3 ← elim o [
        | none ↦ load_if_empty now s1
        | some a ↦ do
          (s2, there) ← on_client Z (Connect.check Z J start fuel s1.handler.root) a s1
          if there then reload_services now later a s2 else load_if_empty now s2
      ]
      close_any o s3

    -- `warm`.
    unfoldable pub warm : ℕ → ℕ → ℕ → ℕ → Server Z → Option (Server Z)
    unfolding load_cache check
    warm fresh start now later s = do s1 ← load_cache start s; check fresh start now later s1

    -- `reset`: the pool and the cache are emptied, and filled again.
    unfoldable pub reset_server :
        ℕ → ℕ → ℕ → ℕ → ℕ → ℕ → ℕ → ℕ → Server Z → Option (Server Z × Option Str)
    unfolding reset clear warm server_status report
    reset_server rounds fresh fresh' start now later worker_count thread_count s =
        if s.resetting then some (s, none) else (do
          p ← reset rounds s.pool
          s1 ← warm fresh start now later (record s {
            pool = p;
            resetting = true;
            handler = record s.handler { cache = clear s.handler.cache };
          })
          (s2, bits) ← server_status fresh' later worker_count thread_count s1
          some (record s2 { resetting = false }, some (report bits)))

    unfoldable pub create_self : ℕ → Str → ZkClient Z → Option (ZkClient Z × ℤ)
    unfolding create_pnode create_enode connect_zk
    create_self now path c = do
      (c1, _) ← create_pnode Z J now (connect_zk Z J now fuel) (codes "/soa") c
      (c2, _) ← create_pnode Z J now (connect_zk Z J now fuel) (codes "/soa/proxies") c1
      create_enode Z J now (connect_zk Z J now fuel) path [] c2

    unfoldable pub register_self : ℕ → ℕ → Server Z → Option (Server Z)
    unfolding open_one close_one on_client create_self
    register_self fresh now s = do
      (s1, o) ← open_one Z J fuel fresh now s
      elim o [
        | none ↦ some s1
        | some a ↦ do
          connected ← is_connected a s1
          s2 ← elim connected [
            | true ↦ do (s', _) ← on_client Z (create_self now (self_path s1)) a s1; some s'
            | false ↦ some s1
          ]
          close_one Z a s2
      ]
