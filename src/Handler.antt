-- ===== src/Handler.antt =====
-- core/ServerHandler.h and core/ServerHandler.cpp: the requests of the proxy's clients, and the tasks
-- that run at intervals. The client that a task takes from the pool, and the thread pool, are
-- arguments.
pub mod Answers
pub mod Misses
pub mod Drops
pub mod Schedule
pub mod Tests
use sfproxy.Prelude.{
  ℕ, zero, suc, ◌+◌, ◌-◌, ◌*◌, ◌/◌, ◌%◌, ◌^◌, ◌≤◌, ◌<◌, ◌≡◌, refl, sym, ap, ◌∙◌, subst, ◌≢◌, ◌↔◌,
  ◌⊎◌, inl, inr, Bool, true, false, ◌&&◌, ◌||◌, not, Option, none, some, List, [], ◌∷◌, ◌++◌, map,
  arith, ltb, leb, ◌==◌, if◌then◌else◌, ◌>>=◌, ◌>>◌, ltb→lt, lt→ltb, ltb-false, ==_iff, Bool-cases,
  Option-cases, length, length-append, keep_if, length-keep_if-le, keep_if-append, All, All-append,
  All-keep_if, Str, codes, str_eq, str_lt, str_eq_iff, str_eq_refl, ℤ, pos, negsuc, pos_part,
  neg_part, sub_ℕ, ◌+ℤ◌, ltb_ℤ, eq_ℤ,
}
use sfproxy.Registry.{Registry, serialize_all}
use sfproxy.Cache.{RegistryCache, is_nil}
use sfproxy.Cache
use sfproxy.SkipBuffer.{SkipBuffer, release}
use sfproxy.SkipBuffer

-- What the handler shares with its tasks.
pub record ServerHandler : Type 0 where
  pub root : Str
  pub split : Str
  pub cache : RegistryCache
  pub skip_buf : SkipBuffer

abbrev pub service_path : ServerHandler → Str → Str
service_path h service = h.root ++ (h.split ++ service)

abbrev pub is_missing : Option (List Registry) → Bool
is_missing none = true
is_missing (some v) = is_nil v

-- `get`: the text of the answer, and whether the reading from ZooKeeper is committed as a task.
unfoldable pub answer : ℕ → Option (List Registry) → Str
answer time_0 none = []
answer time_0 (some v) = if is_nil v then [] else serialize_all time_0 v

unfoldable pub get : ℕ → ℕ → Str → ServerHandler → ServerHandler × Str × Bool
unfolding answer
get time_0 now_ms service h =
    let path = service_path h service in
    let pvector = Cache.get path h.cache in
    let (skip_buf, fresh) = SkipBuffer.insert path now_ms h.skip_buf in
    if is_missing pvector
    then (record h { skip_buf = skip_buf }, answer time_0 pvector, fresh)
    else (h, answer time_0 pvector, false)

-- `async_get_service_from_zk`: a task for the path, unless too many are pending.
unfoldable pub async_get_service_from_zk : ℕ → Str → List Str → List Str
async_get_service_from_zk pending_max zkpath pending =
    if ltb (length pending) pending_max then pending ++ (zkpath ∷ []) else pending

-- `get` with what it commits.
unfoldable pub request : ℕ → ℕ → ℕ → Str → ServerHandler → List Str → ServerHandler × Str × List Str
unfolding get async_get_service_from_zk
request pending_max time_0 now_ms service h pending =
    let (h', text, asks) = get time_0 now_ms service h in
    (
      h',
      text,
      if asks
          then async_get_service_from_zk pending_max (service_path h service) pending
          else pending,
    )

-- The end of `get_service_from_zk`, after the client has written what it read into the cache.
unfoldable pub got_service : Str → RegistryCache → ServerHandler → ServerHandler
got_service zkpath cache h = record h { cache = cache; skip_buf = release zkpath h.skip_buf }

abbrev pub bit : ℕ → Bool → ℕ
bit value set = if set then value else 0

-- Whether `status` finds a client that is connected: the pool is not empty, `open` gives a client,
-- and the client is connected (none: `open` gives no client).
abbrev pub has_client : ℕ → Option Bool → Bool
has_client pool_size none = false
has_client pool_size (some connected) = ltb 0 pool_size && connected

-- `status`: the bits are distinct, so that their disjunction is their sum.
unfoldable pub status : ℕ → Option Bool → ℕ → ℕ → ℕ → ℕ → ℕ
status pool_size client cache_size watcher_size worker_count thread_count =
    bit 1 (not (has_client pool_size client))
    + bit 2 (cache_size == 0)
    + bit 4 (ltb watcher_size 2)
    + bit 8 (ltb worker_count thread_count)

-- A task that runs at intervals.
pub record ScheduledTask : Type 0 where
  pub name : Str
  pub interval_in_ms : ℕ
  pub last_run_ms : ℕ

-- `now - task->last_run_ms > task->interval_in_ms`, in 64 bits.
unfoldable pub is_due : ℕ → ScheduledTask → Bool
is_due now t = ltb t.interval_in_ms ((now + 2 ^ 64 - t.last_run_ms) % 2 ^ 64)

-- `commit_task`: the pending tasks, unless their list is full.
unfoldable pub commit_task : ℕ → ScheduledTask → List ScheduledTask → List ScheduledTask
commit_task pending_max t pending =
    if ltb (length pending) pending_max then pending ++ (t ∷ []) else pending

-- A task that is due has its time set, before it is committed; a task that is avoided keeps that time.
unfoldable pub set_run : ℕ → ScheduledTask → ScheduledTask
unfolding is_due
set_run now t = if is_due now t then record t { last_run_ms = now } else t

unfoldable pub commit_if_due : ℕ → ℕ → ScheduledTask → List ScheduledTask → List ScheduledTask
unfolding is_due commit_task set_run
commit_if_due pending_max now t pending =
    if is_due now t then commit_task pending_max (set_run now t) pending else pending

-- One round of `TaskScheduler::run` over the tasks, each with the clock reading of its turn: the tasks,
-- and what is pending, while no thread takes up a pending task.
unfoldable pub round :
    ℕ → List (ℕ × ScheduledTask) → List ScheduledTask → List ScheduledTask × List ScheduledTask
unfolding set_run commit_if_due
round pending_max [] pending = ([], pending)
round pending_max ((now, t) ∷ runners) pending =
    let (runners', pending') =
      round pending_max runners (commit_if_due pending_max now t pending) in
    (set_run now t ∷ runners', pending')

-- The tasks of `init_scheduledtask`.
unfoldable pub init_scheduledtask : List ScheduledTask
init_scheduledtask =
    record { name = codes "wake"; interval_in_ms = 1 * 60 * 1000; last_run_ms = 0 }
    ∷ record { name = codes "check"; interval_in_ms = 10 * 60 * 1000; last_run_ms = 0 }
    ∷ record { name = codes "autosave"; interval_in_ms = 3600 * 1000; last_run_ms = 0 }
    ∷ []
