-- ===== src/Server/Steps.antt =====
-- A server of core/ServerHandler.cpp from its start on: its requests, tasks and events, one after another.
use sfproxy.Prelude.{ℕ, ◌≡◌, true, Option, none, some, ◌>>=◌, Str, ℤ}
use sfproxy.Prelude.{Post}
use sfproxy.Json.{Rapidjson}
use sfproxy.Zookeeper.{Zookeeper}
use sfproxy.Pool.{Pool, reset}
use sfproxy.Cache.{clear}
use sfproxy.FileCache.{Disk}
use sfproxy.Handler
use sfproxy.Handler.{answer}
use sfproxy.Server.{Server, new_server}
use sfproxy.Server.Tasks.{
  get_service_from_zk, keep_awake, server_status, save_task, check, warm, reset_server,
  register_self,
}
use sfproxy.Server.Watch.{service_instance_event, service_event, root_event, create_enode_event}

module _ (Z : Zookeeper) (J : Rapidjson) (fuel : ℕ) where
  abbrev pub cleared : Pool → Server Z → Server Z
  cleared p s = record s {
    pool = p;
    resetting = true;
    handler = record s.handler { cache = clear s.handler.cache };
  }

  -- A request, a task, or an event, which returns; `new` gives an address at which no client lives.
  pub data ServerStep : Server Z → Server Z → Type 0 where
    requested :
        {s : Server Z} (time_0 now_ms : ℕ) (service : Str)
        → ServerStep s (record s { handler = (Handler.get time_0 now_ms service s.handler).0 })
    fetched :
        {s t : Server Z} (fresh now : ℕ) (path : Str)
        → s.pool.heap fresh ≡ none
        → get_service_from_zk Z J fuel fresh now path s ≡ some t
        → ServerStep s t
    kept_awake :
        {s t : Server Z} (fresh now : ℕ)
        → s.pool.heap fresh ≡ none
        → keep_awake Z J fuel fresh now s ≡ some t
        → ServerStep s t
    asked :
        {s t : Server Z} (fresh now workers threads bits : ℕ)
        → s.pool.heap fresh ≡ none
        → server_status Z J fuel fresh now workers threads s ≡ some (t, bits)
        → ServerStep s t
    saved :
        {s t : Server Z} (time_0 fresh now workers threads : ℕ)
        → s.pool.heap fresh ≡ none
        → save_task Z J fuel time_0 fresh now workers threads s ≡ some t
        → ServerStep s t
    checked :
        {s t : Server Z} (fresh start now later : ℕ)
        → s.pool.heap fresh ≡ none
        → check Z J fuel fresh start now later s ≡ some t
        → ServerStep s t
    warmed :
        {s t : Server Z} (fresh start now later : ℕ)
        → s.pool.heap fresh ≡ none
        → warm Z J fuel fresh start now later s ≡ some t
        → ServerStep s t
    registered :
        {s t : Server Z} (fresh now : ℕ)
        → s.pool.heap fresh ≡ none
        → register_self Z J fuel fresh now s ≡ some t
        → ServerStep s t
    restarted :
        {s t : Server Z} (rounds fresh fresh' start now later workers threads : ℕ) (r : Option Str)
        → Post (λ (p : Pool). p.heap fresh ≡ none) (reset rounds s.pool)
        → Post
            (λ (s1 : Server Z). s1.pool.heap fresh' ≡ none)
            (do p ← reset rounds s.pool; warm Z J fuel fresh start now later (cleared p s))
        → reset_server Z J fuel rounds fresh fresh' start now later workers threads s ≡ some (t, r)
        → ServerStep s t
    instance_changed :
        {s t : Server Z} (fresh now : ℕ) (type : ℤ) (path : Str)
        → s.pool.heap fresh ≡ none
        → service_instance_event Z J fuel fresh now type path s ≡ some t
        → ServerStep s t
    service_changed :
        {s t : Server Z} (fresh now : ℕ) (type : ℤ) (path : Str)
        → s.pool.heap fresh ≡ none
        → service_event Z J fuel fresh now type path s ≡ some t
        → ServerStep s t
    root_changed :
        {s t : Server Z} (fresh now : ℕ) (type : ℤ) (path : Str)
        → s.pool.heap fresh ≡ none
        → root_event Z J fuel fresh now type path s ≡ some t
        → ServerStep s t
    node_changed :
        {s t : Server Z} (fresh now : ℕ) (type state : ℤ) (path : Str)
        → s.pool.heap fresh ≡ none
        → create_enode_event Z J fuel fresh now type state path s ≡ some t
        → ServerStep s t

  pub data ServerReaches : Server Z → Type 0 where
    starts :
        (disk : Disk) (world : Z.World) (hostname : Str) (port : ℤ)
        → ServerReaches (new_server Z disk world hostname port)
    follows : {s t : Server Z} → ServerReaches s → ServerStep s t → ServerReaches t
