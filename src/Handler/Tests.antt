-- ===== src/Handler/Tests.antt =====
-- core/ServerHandler.cpp at concrete caches, pools and tasks.
use sfproxy.Prelude.{
  ◌+◌, ◌<◌, ◌≡◌, refl, ◌↔◌, inr, true, List, [], ◌∷◌, ◌++◌, arith, ltb, if◌then◌else◌, codes, pos,
}
use sfproxy.Registry.{Registry}
use sfproxy.Cache.{add}
use sfproxy.Cache
use sfproxy.SkipBuffer.{new_buffer, insert}
use sfproxy.SkipBuffer.Throttle.{BufferCall, inserts, run}
use sfproxy.OrderedMap
use sfproxy.Handler.{
  ServerHandler, got_service, service_path, answer, ScheduledTask, get, is_due, round,
}
use sfproxy.Handler.{request}
use sfproxy.Handler.Drops.{request-drops}
use sfproxy.Handler.Misses.{get-asks_again}
use sfproxy.Handler.Schedule.{due, touch_all, set_all, round-commits}

abbrev fresh_handler : ServerHandler
fresh_handler = record {
  root = codes "/soa/services";
  split = codes "/";
  cache = [];
  skip_buf = new_buffer 1000;
}

abbrev rta : Registry
rta = record {
  name = codes "/soa/services/rta";
  host = codes "a";
  port = pos 9009;
  ctime = 1000;
  mtime = 1000;
  ephemeral = codes "e";
  json = [];
}

abbrev wake : ScheduledTask
wake = record { name = codes "wake"; interval_in_ms = 60000; last_run_ms = 0 }

round-commits_example :
    round 100 ((70000, wake) ∷ []) []
    ≡ (set_all ((70000, wake) ∷ []), [] ++ touch_all (due ((70000, wake) ∷ [])))
unfolding is_due
round-commits_example = round-commits 100 ((70000, wake) ∷ []) [] (omega arith)

wake_due : is_due 70000 wake ≡ true
unfolding is_due
wake_due = refl

rtb_asked : (get 2000 5 (codes "rtb") fresh_handler).2 ≡ true
unfolding get answer Cache.get OrderedMap.find insert OrderedMap.insert new_buffer
rtb_asked = refl

abbrev rtb_calls : List BufferCall
rtb_calls = inserts (codes "/soa/services/rtb") 700 ∷ []

get-asks_again_example :
    let asked = record fresh_handler {
      skip_buf = run rtb_calls (get 2000 5 (codes "rtb") fresh_handler).0.skip_buf;
    } in
    ((get 2000 1200 (codes "rtb") asked).1 ≡ [])
    × (((get 2000 1200 (codes "rtb") asked).2 ≡ true) ↔ (5 + fresh_handler.skip_buf.timeout < 1200))
    × ((get 2000 1200
          (codes "rtb")
          (got_service (service_path fresh_handler (codes "rtb")) [] asked)).2
        ≡ true)
unfolding Cache.get OrderedMap.find new_buffer
get-asks_again_example =
    get-asks_again 2000 5 1200 (codes "rtb") fresh_handler rtb_calls [] refl refl (omega arith)
      rtb_asked (inr (omega arith, omega arith), tt) (omega arith) (omega arith)

request-drops_example :
    let first = request 1 2000 5 (codes "rtb") fresh_handler (codes "/soa/services/old" ∷ []) in
    let asked = record fresh_handler { skip_buf = run rtb_calls first.0.skip_buf } in
    (first.2 ≡ codes "/soa/services/old" ∷ [])
    × ((request 1 2000 1200 (codes "rtb") asked []).2 ≡ (
        if ltb (5 + fresh_handler.skip_buf.timeout) 1200
        then [] ++ (service_path fresh_handler (codes "rtb") ∷ [])
        else []))
unfolding Cache.get OrderedMap.find new_buffer
request-drops_example =
    request-drops 1 2000 5 1200 (codes "rtb") fresh_handler rtb_calls
      (codes "/soa/services/old" ∷ []) [] refl (omega arith) rtb_asked (omega arith)
      (inr (omega arith, omega arith), tt) (omega arith) (omega arith) (omega arith)
