-- ===== src/LogSender/Tests.antt =====
-- log/scribe_log.cpp with a scribe that takes a fixed number of entries.
use sfproxy.Prelude.{
  ℕ, ◌+◌, ◌-◌, ◌≤◌, ◌≡◌, refl, Bool, none, List, [], ◌∷◌, ◌++◌, arith, ltb, length, Str, codes,
}
use sfproxy.LogSender.{LogEntry, write, put_back, send_log, Sender, SenderStep, SenderReaches}
use sfproxy.LogSender.Bound.{SenderReaches-bound, put_back_exceeds}
use sfproxy.LogSender.Order.{AllSent, Stopped, send_log-order}

abbrev entry : Str → LogEntry
entry message = record { category = codes "frproxy"; message = message }

-- The number of entries that scribe still takes.
abbrev take_some : LogEntry → ℕ → ℕ × Bool
take_some e n = (n - 1, ltb 0 n)

abbrev two_entries : List LogEntry
two_entries = entry (codes "a") ∷ entry (codes "b") ∷ []

abbrev one_written : Sender
one_written = record { msg_list = write 2 (entry (codes "a")) []; begin = none }

SenderReaches-bound_example : length one_written.msg_list ≤ 2 + 1
SenderReaches-bound_example =
    SenderReaches-bound 2 one_written
      (SenderReaches.follows SenderReaches.starts (SenderStep.writes (entry (codes "a")) [] none))

put_back_exceeds_example :
    (length (put_back 2 (entry (codes "c")) two_entries) ≡ 2 + 1)
    × (length (write 2 (entry (codes "d")) (put_back 2 (entry (codes "c")) two_entries)) ≡ 2 + 1)
put_back_exceeds_example =
    put_back_exceeds 2 (entry (codes "c")) (entry (codes "d")) two_entries refl

send_log-order_example :
    let r = send_log take_some 2 two_entries 1 in
    (sent : List LogEntry) × (v : ℕ) × (sent ++ r.1 ≡ two_entries)
    × AllSent take_some 2 sent 1 v
    × Stopped take_some 2 r.1 v r.0
send_log-order_example = send_log-order take_some 2 two_entries 1 (omega arith)
