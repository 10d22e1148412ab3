-- ===== src/Server/Held.antt =====
-- A connected client of the pool in the hands of a task of core/ServerHandler.cpp: each call returns.
use sfproxy.Prelude.{ℕ, suc, ◌≡◌, refl, subst, Bool, true, false, Option, some, List, arith, ◌>>=◌}
use sfproxy.Prelude.{Returns, Returns-bind}
use sfproxy.Json.{Rapidjson}
use sfproxy.Zookeeper.{Zookeeper}
use sfproxy.StateBag.{StateBag}
use sfproxy.Client.{Client, set_in_using}
use sfproxy.Pool.{update, lend, open_client, close, on_client_closing}
use sfproxy.Pool.Invariant
use sfproxy.Pool.Grows.{HasRoom}
use sfproxy.Pool.Waiting.{IsWaiting, open_idle}
use sfproxy.ZkClient.{ZkClient, connect_tries, k_max_connect_retry_times}
use sfproxy.ZkClient.Connect.{connect_zk, open_zk}
use sfproxy.Handler.{ServerHandler}
use sfproxy.Server.{
  Server, load, store, on_client, without_freed, connect_client, open_one, close_one,
}

pub update_same : (heap : ℕ → Option Client) (a : ℕ) (o : Option Client) → update heap a o a ≡ o
update_same heap a o = ground arith

module _ (Z : Zookeeper) where
  -- A task has the connected client at `a`, with this handler, this world and these states.
  pub record Has (a : ℕ) (h : ServerHandler) (w : Z.World) (bag : StateBag) (s1 : Server Z)
      : Type 0 where
    pub client : Client
    pub there : s1.pool.heap a ≡ some client
    pub up : client.connected ≡ true
    pub handle : s1.handle a ≡ true
    pub handler : s1.handler ≡ h
    pub world : s1.world ≡ w
    pub states : s1.pool.state_bag ≡ bag

  pub close_one-Returns :
      (a : ℕ) (c : Client) (s : Server Z)
      → s.pool.heap a ≡ some c
      → Returns (λ (t : Server Z). t.handler ≡ s.handler) (close_one Z a s)
  unfolding close_one close on_client_closing
  close_one-Returns a c s there = rw there (ground arith)

  pub on_client_known :
      {A : Type 0} (op : ZkClient Z → Option (ZkClient Z × A)) (a : ℕ) (c : Client) (s : Server Z)
      (z : ZkClient Z) (r : A)
      → s.pool.heap a ≡ some c
      → op (load Z a c s) ≡ some (z, r)
      → on_client Z op a s ≡ some (store Z a c z s, r)
  unfolding on_client
  on_client_known op a c s z r there e = rw there (rw e refl)

  module _ (J : Rapidjson) (fuel : ℕ) where
    open_zk_up :
        (now : ℕ) (z : ZkClient Z) → z.connected ≡ true → open_zk Z J now fuel z ≡ some (z, true)
    unfolding open_zk
    open_zk_up now z up = pick z.connected up
      where
        pick :
            (b : Bool)
            → b ≡ true
            → ◌≡◌ {A = Option (ZkClient Z × Bool)}
                (elim b [
                  | true ↦ some (z, true)
                  | false ↦ do
                    c' ← connect_zk Z J now fuel z
                    some (c', (connect_tries Z (suc k_max_connect_retry_times) z.world).1)
                ])
                (some (z, true))
        pick true e = refl
        pick false e = cc

    abbrev used_at : ℕ → Client → Client
    used_at now c = record c { last_use = now }

    abbrev dated : ℕ → ℕ → Client → Server Z → Server Z
    dated now a c s = record s {
      pool = record s.pool { heap = update s.pool.heap a (some (used_at now c)) };
    }

    connect_client_known :
        (now a : ℕ) (c : Client) (s : Server Z)
        → s.pool.heap a ≡ some c
        → c.connected ≡ true
        → connect_client Z J fuel now (some a) s
          ≡ some (
              store Z a
                (used_at now c)
                (load Z a (used_at now c) (dated now a c s))
                (dated now a c s))
    unfolding connect_client open_client
    connect_client_known now a c s there up =
        let opened =
          on_client_known (open_zk Z J now fuel) a (used_at now c) (dated now a c s)
            (load Z a (used_at now c) (dated now a c s)) true
            (update_same s.pool.heap a (some (used_at now c)))
            (unfold load in (open_zk_up now (load Z a (used_at now c) (dated now a c s)) up)) in
        rw there (rw opened refl)

    connect_client-Returns :
        (now a : ℕ) (c : Client) (s : Server Z)
        → s.pool.heap a ≡ some c
        → c.connected ≡ true
        → s.handle a ≡ true
        → Returns
            (Has a s.handler s.world s.pool.state_bag)
            (connect_client Z J fuel now (some a) s)
    unfolding load store
    connect_client-Returns now a c s there up handle =
        rw (connect_client_known now a c s there up) (record {
          client = used_at now c;
          there = ground arith;
          up = up;
          handle = ground arith;
          handler = refl;
          world = refl;
          states = refl;
        })

    pub open_one-Returns :
        (fresh now a : ℕ) (rest : List ℕ) (c : Client) (s : Server Z)
        → Invariant.IsValid s.pool
        → HasRoom s.pool
        → IsWaiting a rest c s.pool
        → s.handle a ≡ true
        → Returns
            (λ (x : Server Z × Option ℕ).
              (x.1 ≡ some a) × Has a s.handler s.world s.pool.state_bag x.0)
            (open_one Z J fuel fresh now s)
    unfolding open_one without_freed lend set_in_using
    open_one-Returns fresh now a rest c s v room w handle =
        let (p1, e, there, same, opened) = open_idle fresh now a rest c s.pool v room w in
        rw e (
          rw opened (
            Returns-bind (Has a s.handler s.world p1.state_bag)
              (λ (x : Server Z × Option ℕ).
                (x.1 ≡ some a) × Has a s.handler s.world s.pool.state_bag x.0)
              (connect_client Z J fuel now (some a)
                (record (without_freed Z p1 s) { pool = lend a c rest p1 }))
              _
              (connect_client-Returns now a (set_in_using true c)
                (record (without_freed Z p1 s) { pool = lend a c rest p1 })
                (update_same p1.heap a (some (set_in_using true c))) w.up (rw there handle))
              (λ s' h. (refl, subst (λ bag. Has a s.handler s.world bag s') same h))))
