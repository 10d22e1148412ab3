-- ===== src/Server/Tests.antt =====
-- core/ServerHandler.cpp with a pool of one idle client, an empty cache, and a ZooKeeper with one service.
use sfproxy.Prelude.{
  ℕ, ◌≡◌, refl, true, false, Option, none, some, List, [], ◌∷◌, arith, Str, codes, str_eq, pos,
}
use sfproxy.Prelude.{Post, Returns}
use sfproxy.Pool.{
  Pool, size, new_pool, used, destroy_clients, destroy_list, open_locked, reuse, create,
  open_client,
}
use sfproxy.Pool.Invariant
use sfproxy.Pool.Tests.{unused, one_idle, one_idle-IsValid}
use sfproxy.Registry.{Registry, serialize_all}
use sfproxy.ZkClient.Tests.{steady, endpoint_object, a_path, member_of}
use sfproxy.ZkClient.{c_string, from_node}
use sfproxy.Registry.{Registry, empty_registry}
use sfproxy.Server.Reload.{IsReloaded}
use sfproxy.Server.Check.{IsServing, check-refreshes}
use sfproxy.ZkClient.Connect.{keys_of, connect_zk, open_zk}
use sfproxy.ZkClient.Refresh.{Describes}
use sfproxy.Handler.{ServerHandler, service_path}
use sfproxy.Handler
use sfproxy.FileCache.{is_some}
use sfproxy.Server.{Server, new_server, open_one, connect_client, on_client}
use sfproxy.Server.Steps.{starts, follows, kept_awake}
use sfproxy.Server.Quiet.{IsQuiet}
use sfproxy.Server.History.{ServerReaches-IsQuiet}
use sfproxy.Server.Borrow.{Back}
use sfproxy.Server.Safety.{IsReady}
use sfproxy.Handler.{status}
use sfproxy.Server.Report.{report-swaps}
use sfproxy.Server.Tasks.{
  report, get_service_from_zk, keep_awake, server_status, save_task, check, warm, register_self,
}
use sfproxy.Server.GiveBack.{tasks-Back}
use sfproxy.Server.Fetch.{Offers, IsRead, IsIdling, get_service_from_zk-answers}

abbrev roomy : Pool
roomy = record one_idle { max_client = pos 2 }

roomy-IsValid : (a : ℕ) → Invariant.IsPlaced roomy a
roomy-IsValid a =
    let v = one_idle-IsValid a in
    record { once = v.once; lent_one = v.lent_one; idle_one = v.idle_one; dying_one = v.dying_one }

abbrev handler : ServerHandler
handler = record {
  root = codes "/soa";
  split = codes "/";
  cache = [];
  skip_buf = record { entries = []; timeout = 5000 };
}

abbrev server : Server steady
server = record {
  handler = handler;
  pool = roomy;
  handle = λ a. true;
  disk = record { files = []; writable = λ name. true };
  world = tt;
  hostname = codes "proxy-1";
  port = pos 9009;
  cache_file_name = codes "/tmp/frproxy.cache";
  resetting = false;
}

server-IsReady : IsReady steady 8 server
unfolding size
server-IsReady = record {
  good = (roomy-IsValid, refl);
  valid = record { sorted = tt; buckets = tt };
  free = refl;
  room = refl;
}

tasks-Back_example :
    Post (Back steady roomy) (get_service_from_zk steady endpoint_object 3 8 6 a_path server)
    × Post (Back steady roomy) (keep_awake steady endpoint_object 3 8 6 server)
    × Post
        (λ (x : Server steady × ℕ). Back steady roomy x.0)
        (server_status steady endpoint_object 3 8 6 4 4 server)
    × Post (Back steady roomy) (save_task steady endpoint_object 3 1 8 6 4 4 server)
    × Post (Back steady roomy) (check steady endpoint_object 3 8 5 6 7 server)
    × Post (Back steady roomy) (warm steady endpoint_object 3 8 5 6 7 server)
    × Post (Back steady roomy) (register_self steady endpoint_object 3 8 6 server)
tasks-Back_example = tasks-Back steady endpoint_object 3 8 5 6 7 1 4 4 a_path server server-IsReady

server-IsIdling : IsIdling steady endpoint_object 3 7 [] unused server
unfolding size
server-IsIdling = record {
  pool = roomy-IsValid;
  room = refl;
  waiting = record { first = refl; there = refl; up = refl };
  handle = refl;
  cache = record { sorted = tt; buckets = tt };
}

described :
    Describes steady endpoint_object 5
      (connect_zk steady endpoint_object 5 3)
      a_path
      member_of
      (codes "member_1")
unfolding c_string from_node str_eq empty_registry
described w = (refl, codes "{}", refl, refl)

server-Offers :
    Offers steady endpoint_object 3 member_of (codes "member_1") [] 5 (codes "a") handler tt
server-Offers = record {
  ok = refl;
  found = refl;
  describes = (described, tt);
  complete = ((refl, refl, refl, refl), tt);
  distinct = (tt, tt);
}

get_service_from_zk-answers_example :
    Returns
      (λ (t : Server steady).
        IsRead steady endpoint_object 3 member_of
          (codes "member_1")
          []
          5
          (codes "a")
          handler
          tt
          t.handler.cache
        × (Handler.get 2000 9 (codes "a") t.handler
            ≡ (t.handler, serialize_all 2000 (member_of (codes "member_1") ∷ []), false)))
      (get_service_from_zk steady endpoint_object 3 8 5 (service_path handler (codes "a")) server)
get_service_from_zk-answers_example =
    get_service_from_zk-answers steady endpoint_object 3 2000 9 8 5 7 [] unused (codes "a")
      member_of (codes "member_1") [] server server-IsIdling server-Offers

abbrev started : Server steady
started =
    new_server steady (record { files = []; writable = λ name. true }) tt (codes "proxy-1")
      (pos 9009)

-- The server, if the call returns.
abbrev or_started : Option (Server steady) → Server steady
or_started none = started
or_started (some t) = t

is_returned : (o : Option (Server steady)) → is_some o ≡ true → o ≡ some (or_started o)
is_returned none h = cc
is_returned (some t) h = refl

wakes : is_some (keep_awake steady endpoint_object 3 8 5 started) ≡ true
unfolding keep_awake new_server new_pool used open_one destroy_clients destroy_list open_locked
    reuse create size connect_client open_client on_client open_zk connect_zk
wakes = refl

vacant : started.pool.heap 8 ≡ none
unfolding new_server new_pool
vacant = refl

ServerReaches-IsQuiet_example :
    IsQuiet steady (or_started (keep_awake steady endpoint_object 3 8 5 started))
ServerReaches-IsQuiet_example =
    ServerReaches-IsQuiet steady endpoint_object 3
      (or_started (keep_awake steady endpoint_object 3 8 5 started))
      (follows
        (starts (record { files = []; writable = λ name. true }) tt (codes "proxy-1") (pos 9009))
        (kept_awake 8 5 vacant
          (is_returned (keep_awake steady endpoint_object 3 8 5 started) wakes)))

abbrev instance_at : Str → Str → Registry
instance_at path name = record (member_of name) { name = path; mtime = 7 }

abbrev only_member : Str → Str
only_member path = codes "member_1"

abbrev no_more : Str → List Str
no_more path = []

member_described :
    Describes steady endpoint_object 7
      (connect_zk steady endpoint_object 7 3)
      (codes "/soa/member_1")
      (instance_at (codes "/soa/member_1"))
      (codes "member_1")
unfolding c_string from_node str_eq empty_registry
member_described w = (refl, codes "{}", refl, refl)

steady-IsServing :
    IsServing steady endpoint_object 3 only_member no_more instance_at
      (codes "member_1" ∷ [])
      6
      7
      handler
      tt
steady-IsServing = record {
  root = refl;
  ok = refl;
  found = refl;
  offered = (
    record {
      ok = λ w. refl;
      found = λ w. refl;
      describes = (member_described, tt);
      complete = ((refl, refl, refl, refl), tt);
      distinct = (tt, tt);
    },
    tt,
  );
  new = ((refl, tt), tt);
}

none_unowned : keys_of 0 server.pool.state_bag ≡ []
unfolding keys_of
none_unowned = refl

check-refreshes_example :
    Returns
      (λ (t : Server steady).
        IsReloaded steady endpoint_object 3 only_member no_more instance_at
          (codes "member_1" ∷ [])
          6
          7
          handler
          t.handler.cache)
      (check steady endpoint_object 3 8 5 6 7 server)
check-refreshes_example =
    check-refreshes steady endpoint_object 3 only_member no_more instance_at (codes "member_1" ∷ [])
      8 5 6 7 7 [] unused server server-IsIdling none_unowned steady-IsServing

report-swaps_example :
    (report (status 1 (some true) 0 5 3 3) ≡ codes "none watcher created; \n")
    × (report (status 1 (some true) 4 1 3 3) ≡ codes "no service configured; \n")
report-swaps_example =
    report-swaps 1 4 5 1 3 3 (omega arith) (omega arith) (omega arith) (omega arith) (omega arith)
