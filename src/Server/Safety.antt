-- ===== src/Server/Safety.antt =====
-- The pool and the cache under the tasks of core/ServerHandler.cpp.
use sfproxy.Prelude.{ℕ, ◌≡◌, refl, inl, Bool, Option, none, some, arith, ◌==◌, ◌>>=◌, Str}
use sfproxy.Prelude.{Post, Post-bind, Post-bind_any, either}
use sfproxy.Json.{Rapidjson}
use sfproxy.Zookeeper.{Zookeeper}
use sfproxy.Pool.{Pool, used}
use sfproxy.Pool
use sfproxy.Pool.History.{IsGood}
use sfproxy.Pool.Grows.{Grows, HasRoom}
use sfproxy.Registry.{unserialize}
use sfproxy.Cache.{RegistryCache, from_file}
use sfproxy.Cache.Storage.{load_file, load_text}
use sfproxy.Cache.Invariant.{IsValid, add_loaded-IsValid}
use sfproxy.ZkClient.{ZkClient}
use sfproxy.ZkClient.Calls.{get_service}
use sfproxy.ZkClient.Connect.{connect_zk}
use sfproxy.ZkClient.Validity.{IsSound, Keeps, get_service-Keeps}
use sfproxy.ZkClient.Survival.{connect_zk-IsSound}
use sfproxy.Handler.{got_service}
use sfproxy.Server.{Server, on_client, open_one, close_one}
use sfproxy.Server.Borrow.{Holds, Back, Opened, on_client-Holds, close_one-Back, open_one-Opened}
use sfproxy.Server.Tasks.{close_any, is_connected, get_service_from_zk, keep_awake, probe}

from_file-IsValid :
    (J : Rapidjson) (now : ℕ) (o : Option Str) (cache : RegistryCache)
    → IsValid cache
    → Post IsValid (from_file J now o cache)
unfolding from_file
from_file-IsValid J now none cache h = h
from_file-IsValid J now (some text) cache h =
    Post-bind_any IsValid (unserialize J now text) _ (λ v. add_loaded-IsValid now v cache h)

pub load_file-IsValid :
    (J : Rapidjson) (now : ℕ) (name : Str) (s : _) (cache : RegistryCache)
    → IsValid cache
    → Post IsValid (load_file J now name s cache)
unfolding load_file
load_file-IsValid J now name disk cache h =
    Post-bind_any IsValid (load_text name disk) _ (λ o. from_file-IsValid J now o cache h)

module _ (Z : Zookeeper) where
  -- No client lives at the address that `new` gives, and the pool is not full.
  pub record IsReady (fresh : ℕ) (s : Server Z) : Type 0 where
    pub good : IsGood s.pool
    pub valid : IsValid s.handler.cache
    pub free : s.pool.heap fresh ≡ none
    pub room : HasRoom s.pool

  Grows-refl : (p : Pool) → Grows p none p
  Grows-refl p = ((λ b. omega arith), refl, inl (omega arith))

  pub untouched : (fresh : ℕ) (s : Server Z) → IsReady fresh s → Back Z s.pool s
  untouched fresh s r = record { good = r.good; valid = r.valid; count = Grows-refl s.pool }

  module _ (J : Rapidjson) (fuel : ℕ) where
    pub opened :
        (fresh now : ℕ) (s : Server Z)
        → IsReady fresh s
        → Post (Opened Z s.pool) (open_one Z J fuel fresh now s)
    opened fresh now s r = open_one-Opened Z J fuel fresh now s r.good r.valid r.free r.room

    -- What a task does with the client it has taken, if it keeps it until the end.
    pub close_after {ℓ} :
        {A : Type ℓ} (op : ZkClient Z → Option (ZkClient Z × A)) (p0 : Pool) (a : ℕ) (s : Server Z)
        → ((c : ZkClient Z) → IsSound Z c → Keeps Z (op c))
        → Holds Z p0 a s
        → Post (Back Z p0) (do (s', _) ← on_client Z op a s; close_one Z a s')
    close_after op p0 a s sound h =
        Post-bind _ (Back Z p0) (on_client Z op a s) _ (on_client-Holds Z op p0 a s sound h)
          (λ (s', _) k. close_one-Back Z p0 a s' k)

    pub get_service_from_zk-Back :
        (fresh now : ℕ) (path : Str) (s : Server Z)
        → IsReady fresh s
        → Post (Back Z s.pool) (get_service_from_zk Z J fuel fresh now path s)
    unfolding get_service_from_zk got_service
    get_service_from_zk-Back fresh now path s r =
        Post-bind (Opened Z s.pool) (Back Z s.pool) (open_one Z J fuel fresh now s) _
          (opened fresh now s r)
          (λ (s1, o) h.
            Post-bind (Back Z s.pool) (Back Z s.pool) _ _ (taken o s1 h)
              (λ s2 k. record { good = k.good; valid = k.valid; count = k.count }))
      where
        taken :
            (o : Option ℕ) (s1 : Server Z)
            → Opened Z s.pool (s1, o)
            → Post (Back Z s.pool) (elim o [
              | none ↦ some s1
              | some a ↦ do
                (s', _) ← on_client Z (get_service Z J now (connect_zk Z J now fuel) path) a s1
                close_one Z a s'
            ])
        taken none s1 h = absurd h
        taken (some a) s1 h =
            close_after (get_service Z J now (connect_zk Z J now fuel) path) s.pool a s1
              (get_service-Keeps Z J now (connect_zk Z J now fuel) (connect_zk-IsSound Z J now fuel)
                path)
              h

    pub close_any-Back :
        (p0 : Pool) (o : Option ℕ) (s : Server Z)
        → Opened Z p0 (s, o)
        → Post (Back Z p0) (close_any Z o s)
    close_any-Back p0 none s h = absurd h
    close_any-Back p0 (some a) s h = close_one-Back Z p0 a s h

    pub keep_awake-Back :
        (fresh now : ℕ) (s : Server Z)
        → IsReady fresh s
        → Post (Back Z s.pool) (keep_awake Z J fuel fresh now s)
    unfolding keep_awake
    keep_awake-Back fresh now s r =
        either (Post (Back Z s.pool)) (used s.pool == 0) _ _
          (Post-bind (Opened Z s.pool) (Back Z s.pool) (open_one Z J fuel fresh now s) _
            (opened fresh now s r) (λ (s1, o) h. close_any-Back s.pool o s1 h))
          (untouched fresh s r)

    pub probe-Back :
        (fresh now : ℕ) (s : Server Z)
        → IsReady fresh s
        → Post (λ (x : Server Z × Option Bool). Back Z s.pool x.0) (probe Z J fuel fresh now s)
    unfolding probe
    probe-Back fresh now s r =
        either (Post (λ (x : Server Z × Option Bool). Back Z s.pool x.0)) (Pool.size s.pool == 0) _
          _ (untouched fresh s r)
          (Post-bind (Opened Z s.pool) (λ (x : Server Z × Option Bool). Back Z s.pool x.0)
            (open_one Z J fuel fresh now s) _ (opened fresh now s r) (λ (s1, o) h. taken o s1 h))
      where
        taken :
            (o : Option ℕ) (s1 : Server Z)
            → Opened Z s.pool (s1, o)
            → Post
                (λ (x : Server Z × Option Bool). Back Z s.pool x.0)
                (elim o [
                  | none ↦ some (s1, none)
                  | some a ↦ do
                    connected ← is_connected Z a s1
                    s2 ← close_one Z a s1
                    some (s2, some connected)
                ])
        taken none s1 h = absurd h
        taken (some a) s1 h =
            Post-bind_any (λ (x : Server Z × Option Bool). Back Z s.pool x.0) (is_connected Z a s1)
              _
              (λ connected.
                Post-bind (Back Z s.pool) (λ (x : Server Z × Option Bool). Back Z s.pool x.0)
                  (close_one Z a s1) _ (close_one-Back Z s.pool a s1 h) (λ s2 k. k))
