-- ===== src/Server/Borrow.antt =====
-- A client from the pool in the hands of a task of core/ServerHandler.cpp: taken, used, and given back.
use sfproxy.Prelude.{ℕ, suc, ◌<◌, ◌≡◌, refl, Bool, true, false, Option, none, some, ◌>>=◌}
use sfproxy.Prelude.{Post, Post-bind}
use sfproxy.Json.{Rapidjson}
use sfproxy.Zookeeper.{Zookeeper}
use sfproxy.AddressSet.{occ}
use sfproxy.Client.{Client}
use sfproxy.Pool.{Pool, update, open_client}
use sfproxy.Pool.History.{IsGood}
use sfproxy.Pool.Grows.{Grows, Grows-after, HasRoom}
use sfproxy.Pool.Counts.{
  Taken, open_locked-Taken, destroy_clients-quiet, close-Grows, swapped-IsGood,
}
use sfproxy.Cache.Invariant.{IsValid}
use sfproxy.ZkClient.{ZkClient, connect_tries, k_max_connect_retry_times}
use sfproxy.ZkClient.Connect.{open_zk, connect_zk}
use sfproxy.ZkClient.Validity.{IsSound, IsSoundFor, Keeps}
use sfproxy.ZkClient.Survival.{connect_zk-IsSound}
use sfproxy.Server.{
  Server, load, store, on_client, without_freed, connect_client, open_one, close_one,
}

module _ (Z : Zookeeper) where
  -- While a task holds the client at `a`, which it took when the pool was `p0`.
  pub record Holds (p0 : Pool) (a : ℕ) (s : Server Z) : Type 0 where
    pub good : IsGood s.pool
    pub valid : IsValid s.handler.cache
    pub lent : 0 < occ a s.pool.lent
    pub count : Grows p0 (some a) s.pool

  -- After the task: no client is lent that was not before.
  pub record Back (p0 : Pool) (s : Server Z) : Type 0 where
    pub good : IsGood s.pool
    pub valid : IsValid s.handler.cache
    pub count : Grows p0 none s.pool

  abbrev pub Opened : Pool → Server Z × Option ℕ → Type 0
  Opened p0 (s, none) = ⊥
  Opened p0 (s, some a) = Holds p0 a s

  -- A method of the client that leaves a valid cache valid.
  pub on_client-Holds {ℓ} :
      {A : Type ℓ} (op : ZkClient Z → Option (ZkClient Z × A)) (p0 : Pool) (a : ℕ) (s : Server Z)
      → ((c : ZkClient Z) → IsSound Z c → Keeps Z (op c))
      → Holds p0 a s
      → Post (λ (x : Server Z × A). Holds p0 a x.0) (on_client Z op a s)
  unfolding on_client load store
  on_client-Holds {A} op p0 a s sound h = here (s.pool.heap a) refl
    where
      here :
          (o : Option Client)
          → s.pool.heap a ≡ o
          → Post
              (λ (x : Server Z × A). Holds p0 a x.0)
              (do c ← o; (z, r) ← op (load Z a c s); some (store Z a c z s, r))
      here none e = tt
      here (some c) e =
          Post-bind (IsSoundFor Z) (λ (x : Server Z × A). Holds p0 a x.0) (op (load Z a c s)) _
            (sound (load Z a c s) h.valid)
            (λ (z, r) k. record {
              good =
                  swapped-IsGood s.pool a c
                    (record c { connected = z.connected; session_id = z.session_id }) z.states e
                    refl refl h.good;
              valid = k;
              lent = h.lent;
              count = h.count;
            })

  pub close_one-Back :
      (p0 : Pool) (a : ℕ) (s : Server Z) → Holds p0 a s → Post (Back p0) (close_one Z a s)
  unfolding close_one
  close_one-Back p0 a s h =
      let (q, e, g, l) = close-Grows p0 s.pool a h.good h.lent h.count in
      rw e (record { good = g; valid = h.valid; count = l })

  module _ (J : Rapidjson) (fuel : ℕ) where
    open_zk-Keeps : (now : ℕ) (c : ZkClient Z) → IsSound Z c → Keeps Z (open_zk Z J now fuel c)
    unfolding open_zk
    open_zk-Keeps now c h = pick c.connected
      where
        pick :
            (b : Bool)
            → Keeps Z (elim b [
              | true ↦ some (c, true)
              | false ↦ do
                c' ← connect_zk Z J now fuel c
                some (c', (connect_tries Z (suc k_max_connect_retry_times) c.world).1)
            ])
        pick true = h
        pick false =
            Post-bind (IsSound Z) (IsSoundFor Z) (connect_zk Z J now fuel c) _
              (connect_zk-IsSound Z J now fuel c h) (λ d k. k)

    connect_client-Holds :
        (now : ℕ) (p0 : Pool) (a : ℕ) (s : Server Z)
        → Holds p0 a s
        → Post (Holds p0 a) (connect_client Z J fuel now (some a) s)
    unfolding connect_client open_client
    connect_client-Holds now p0 a s h = here (s.pool.heap a) refl
      where
        here :
            (o : Option Client)
            → s.pool.heap a ≡ o
            → Post (Holds p0 a) (do
              p ← (do
                c ← o
                some (record s.pool {
                  heap = update s.pool.heap a (some (record c { last_use = now }));
                }))
              (s', _) ← on_client Z (open_zk Z J now fuel) a (record s { pool = p })
              some s')
        here none e = tt
        here (some c) e =
            let p : Pool = record s.pool {
              heap = update s.pool.heap a (some (record c { last_use = now }));
            } in
            Post-bind _ (Holds p0 a) (on_client Z (open_zk Z J now fuel) a (record s { pool = p }))
              _
              (on_client-Holds (open_zk Z J now fuel) p0 a (record s { pool = p })
                (open_zk-Keeps now)
                (record {
                  good =
                      swapped-IsGood s.pool a c (record c { last_use = now }) s.pool.state_bag e
                        refl refl h.good;
                  valid = h.valid;
                  lent = h.lent;
                  count = h.count;
                }))
              (λ x k. k)

    -- `ClientPool::open` of a valid pool with room gives a client that is lent.
    pub open_one-Opened :
        (fresh now : ℕ) (s : Server Z)
        → IsGood s.pool
        → IsValid s.handler.cache
        → s.pool.heap fresh ≡ none
        → HasRoom s.pool
        → Post (Opened s.pool) (open_one Z J fuel fresh now s)
    unfolding open_one without_freed
    open_one-Opened fresh now s g v free room =
        let (p1, e1, g1, l1, i1, m1, f1, r1) = destroy_clients-quiet fresh s.pool g free room in
        let (x, e2, t) = open_locked-Taken fresh now p1 g1 f1 r1 in
        rw e1 (rw e2 (taken p1 l1 i1 m1 x t))
      where
        taken :
            (p1 : Pool)
            → p1.lent ≡ s.pool.lent
            → p1.idle ≡ s.pool.idle
            → p1.max_client ≡ s.pool.max_client
            → (x : Pool × Option ℕ) → Taken p1 x
            → Post (Opened s.pool) (do
              s' ← connect_client Z J fuel now x.1 (record (without_freed Z p1 s) { pool = x.0 })
              some (s', x.1))
        taken p1 l i m (q, none) t = absurd t
        taken p1 l i m (q, some a) (good, lent, count) =
            Post-bind (Holds s.pool a) (Opened s.pool)
              (connect_client Z J fuel now (some a) (record (without_freed Z p1 s) { pool = q })) _
              (connect_client-Holds now s.pool a (record (without_freed Z p1 s) { pool = q })
                (record {
                  good = good;
                  valid = v;
                  lent = lent;
                  count = Grows-after s.pool p1 q (some a) l i m count;
                }))
              (λ s' k. k)
