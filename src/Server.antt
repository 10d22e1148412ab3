-- ===== src/Server.antt =====
-- core/ServerHandler.cpp with everything that it uses: the pool and its ZooKeeper clients, the cache with
-- its file, and the skip buffer. A task runs as a whole here, with no other thread at work. Clock
-- readings, the address that `new` gives, and the sizes of the thread pool are arguments; a result of
-- `none` is undefined behaviour or a process that ends, as in the parts.
pub mod Tasks
pub mod Borrow
pub mod Safety
pub mod GiveBack
pub mod Held
pub mod Fetch
pub mod Reload
pub mod Check
pub mod Report
pub mod Watch
pub mod WatchBack
pub mod Quiet
pub mod Steps
pub mod History
pub mod Tests
use sfproxy.Prelude.{
  ℕ, zero, suc, ◌+◌, ◌-◌, ◌*◌, ◌/◌, ◌%◌, ◌^◌, ◌≤◌, ◌<◌, ◌≡◌, refl, sym, ap, ◌∙◌, subst, ◌≢◌, ◌↔◌,
  ◌⊎◌, inl, inr, Bool, true, false, ◌&&◌, ◌||◌, not, Option, none, some, List, [], ◌∷◌, ◌++◌, map,
  arith, ltb, leb, ◌==◌, if◌then◌else◌, ◌>>=◌, ◌>>◌, ltb→lt, lt→ltb, ltb-false, ==_iff, Bool-cases,
  Option-cases, length, length-append, keep_if, length-keep_if-le, keep_if-append, All, All-append,
  All-keep_if, Str, codes, str_eq, str_lt, str_eq_iff, str_eq_refl, ℤ, pos, negsuc, pos_part,
  neg_part, sub_ℕ, ◌+ℤ◌, ltb_ℤ, eq_ℤ,
}
use sfproxy.Json.{Rapidjson}
use sfproxy.Zookeeper.{Zookeeper}
use sfproxy.Client.{Client}
use sfproxy.SkipBuffer.{new_buffer}
use sfproxy.Pool.{
  Pool, new_pool, update, destroy_clients, open_locked, open_client, open_pool, close, is_none,
}
use sfproxy.Pool
use sfproxy.ZkClient.{ZkClient}
use sfproxy.ZkClient.Connect.{open_zk}
use sfproxy.Handler.{ServerHandler}
use sfproxy.FileCache.{Disk}

module _ (Z : Zookeeper) where
  -- The handler with what it points to. `handle` tells of each client whether `zhandle_` is set.
  pub record Server : Type 0 where
    pub handler : ServerHandler
    pub pool : Pool
    pub handle : ℕ → Bool
    pub disk : Disk
    pub world : Z.World
    pub hostname : Str
    pub port : ℤ
    pub cache_file_name : Str
    pub resetting : Bool

  -- `ServerHandler(zkhosts, port)`.
  unfoldable pub new_server : Disk → Z.World → Str → ℤ → Server
  unfolding new_pool new_buffer
  new_server disk world hostname port = record {
    handler = record {
      root = codes "/soa/services";
      split = codes "/";
      cache = [];
      skip_buf = new_buffer 1000;
    };
    pool = new_pool;
    handle = λ a. false;
    disk = disk;
    world = world;
    hostname = hostname;
    port = port;
    cache_file_name = codes "/tmp/frproxy.cache";
    resetting = false;
  }

  -- The client at an address, with the cache and the states that it shares.
  unfoldable pub load : ℕ → Client → Server → ZkClient Z
  load a c s = record {
    id = c.id;
    connected = c.connected;
    handle = s.handle a;
    session_id = c.session_id;
    cache = s.handler.cache;
    states = s.pool.state_bag;
    world = s.world;
  }

  unfoldable pub store : ℕ → Client → ZkClient Z → Server → Server
  store a c z s = record s {
    handler = record s.handler { cache = z.cache };
    pool = record s.pool {
      heap =
          update s.pool.heap a
            (some (record c { connected = z.connected; session_id = z.session_id }));
      state_bag = z.states;
    };
    handle = λ b. if a == b then z.handle else s.handle b;
    world = z.world;
  }

  -- A call of a method of the client at `a`.
  unfoldable pub on_client {ℓ} :
      {A : Type ℓ} → (ZkClient Z → Option (ZkClient Z × A)) → ℕ → Server → Option (Server × A)
  unfolding load store
  on_client op a s = do c ← s.pool.heap a; (z, r) ← op (load a c s); some (store a c z s, r)

  -- A client that was freed has no handle.
  unfoldable pub without_freed : Pool → Server → Server
  without_freed p s = record s {
    pool = p;
    handle = λ b. if is_none (p.heap b) then false else s.handle b;
  }

  module _ (J : Rapidjson) (fuel : ℕ) where
    -- The last lines of `ClientPool::open`: the time of use, and the virtual `open` of the client.
    unfoldable pub connect_client : ℕ → Option ℕ → Server → Option Server
    unfolding open_client on_client open_zk
    connect_client now none s = some s
    connect_client now (some a) s = do
      p ← open_client (λ b q. some q) now (some a) s.pool
      (s', _) ← on_client (open_zk Z J now fuel) a (record s { pool = p })
      some s'

    -- `ClientPool::open`.
    unfoldable pub open_one : ℕ → ℕ → Server → Option (Server × Option ℕ)
    unfolding without_freed connect_client open_locked destroy_clients
    open_one fresh now s = do
      p1 ← destroy_clients false s.pool
      (p2, o) ← open_locked fresh now p1
      s' ← connect_client now o (record (without_freed p1 s) { pool = p2 })
      some (s', o)

  -- `c->close()`.
  unfoldable pub close_one : ℕ → Server → Option Server
  unfolding close
  close_one a s = do p ← close a s.pool; some (record s { pool = p })
