-- ===== src/Server/Report.antt =====
-- The report of `reset` in core/ServerHandler.cpp against the bits of `status`.
use sfproxy.Prelude.{ℕ, ◌≤◌, ◌<◌, ◌≡◌, refl, true, false, some, arith, ltb, ◌==◌, codes}
use sfproxy.Handler.{status}
use sfproxy.Server.Tasks.{report}

-- `reset` reports an empty cache as a lack of watchers, and a lack of watchers as an empty cache, where
-- nothing else is wrong: the pool gives a connected client and all threads work.
pub report-swaps :
    (pool_size cache_size watcher_size few worker_count thread_count : ℕ)
    → 0 < pool_size
    → thread_count ≤ worker_count
    → 0 < cache_size
    → 2 ≤ watcher_size
    → few < 2
    → (report (status pool_size (some true) 0 watcher_size worker_count thread_count)
        ≡ codes "none watcher created; \n")
      × (report (status pool_size (some true) cache_size few worker_count thread_count)
          ≡ codes "no service configured; \n")
unfolding report status
report-swaps pool_size cache_size watcher_size few worker_count thread_count pool threads cache
      watched less =
    let client : ltb 0 pool_size ≡ true = ground arith in
    let all : ltb worker_count thread_count ≡ false = ground arith in
    let kept : (cache_size == 0) ≡ false = ground arith in
    let seen : ltb watcher_size 2 ≡ false = ground arith in
    let unseen : ltb few 2 ≡ true = ground arith in
    (rw (client, all, seen) refl, rw (client, all, kept, unseen) refl)
