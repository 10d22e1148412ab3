-- ===== src/LogSender/Bound.antt =====
-- How long the list of log/scribe_log.cpp grows.
use sfproxy.Prelude.{ℕ, ◌+◌, ◌≤◌, ◌≡◌, true, List, [], ◌∷◌, arith, ltb, leb, length, length-append}
use sfproxy.LogSender.{LogEntry, write, put_back, Sender, SenderStep, SenderReaches}

length-write :
    (maxcache : ℕ) (log : LogEntry) (l : List LogEntry)
    → length l ≤ maxcache + 1
    → length (write maxcache log l) ≤ maxcache + 1
unfolding write
length-write maxcache log [] h = ground arith
length-write maxcache log (e ∷ l) h = ground (arith, length-append l (log ∷ []))

length-put_back :
    (maxcache : ℕ) (e : LogEntry) (l : List LogEntry)
    → length l ≤ maxcache + 1
    → length (put_back maxcache e l) ≤ maxcache + 1
unfolding put_back
length-put_back maxcache e l h = ground arith

step_bound :
    (maxcache : ℕ) (s t : Sender)
    → SenderStep maxcache s t
    → length s.msg_list ≤ maxcache + 1
    → length t.msg_list ≤ maxcache + 1
step_bound maxcache s t (SenderStep.writes log l b) h = length-write maxcache log l h
step_bound maxcache s t (SenderStep.takes e l) h = omega arith
step_bound maxcache s t (SenderStep.succeeds e l) h = h
step_bound maxcache s t (SenderStep.fails e l) h = length-put_back maxcache e l h

-- However the writing threads and the sending thread take turns, the list never has more than one
-- entry more than `maxcache`.
pub SenderReaches-bound :
    (maxcache : ℕ) (s : Sender) → SenderReaches maxcache s → length s.msg_list ≤ maxcache + 1
SenderReaches-bound maxcache s SenderReaches.starts = omega arith
SenderReaches-bound maxcache t (SenderReaches.follows {s} r step) =
    step_bound maxcache s t step (SenderReaches-bound maxcache s r)

-- A failure that finds the list full puts its entry back all the same: the list is longer than
-- `maxcache` then, and the next write, which takes out one entry for its own, leaves it so.
pub put_back_exceeds :
    (maxcache : ℕ) (e log : LogEntry) (l : List LogEntry)
    → length l ≡ maxcache
    → (length (put_back maxcache e l) ≡ maxcache + 1)
      × (length (write maxcache log (put_back maxcache e l)) ≡ maxcache + 1)
unfolding put_back write
put_back_exceeds maxcache e log l h =
    let full : leb (length l) maxcache ≡ true = ground arith in
    let over : ltb maxcache (length (e ∷ l) + 1) ≡ true = ground arith in
    rw full (omega arith, rw over (omega (arith, length-append l (log ∷ []))))
