-- ===== src/Handler/Schedule.antt =====
-- The scheduled tasks of core/ServerHandler.cpp.
use sfproxy.Prelude.{
  ℕ, ◌+◌, ◌-◌, ◌%◌, ◌^◌, ◌≤◌, ◌<◌, ◌≡◌, refl, sym, ap, ◌∙◌, ◌↔◌, Bool, if◌then◌else◌, inl, inr,
  true, false, List, [], ◌∷◌, ◌++◌, map, arith, ltb, lt→ltb, ltb-false, Bool-cases, length,
  length-append, keep_if,
}
use sfproxy.Handler.{ScheduledTask, is_due, commit_task, set_run, commit_if_due, round}

abbrev pub touched : ℕ → ScheduledTask → ScheduledTask
touched now t = record t { last_run_ms = now }

-- More than its interval lies between the last run of a task and the reading, on the clock of 64
-- bits.
abbrev pub is_late : ℕ × ScheduledTask → Bool
is_late (now, t) = ltb t.interval_in_ms ((now + 2 ^ 64 - t.last_run_ms) % 2 ^ 64)

-- A task after its turn: with a new time where it is due, else as it is.
abbrev pub ran : ℕ × ScheduledTask → ScheduledTask
ran x = if is_late x then touched x.0 x.1 else x.1

-- The tasks that are due at their turns, with the clock readings.
abbrev pub due : List (ℕ × ScheduledTask) → List (ℕ × ScheduledTask)
due = keep_if is_late

append_cons :
    (p : List ScheduledTask) (t : ScheduledTask) (ts : List ScheduledTask)
    → (p ++ (t ∷ [])) ++ ts ≡ p ++ (t ∷ ts)
append_cons [] t ts = refl
append_cons (x ∷ p) t ts = ap (λ q. x ∷ q) (append_cons p t ts)

append_none : (p : List ScheduledTask) → p ≡ p ++ []
append_none [] = refl
append_none (x ∷ p) = ap (λ q. x ∷ q) (append_none p)

commit_late :
    (pending_max now : ℕ) (t : ScheduledTask) (pending : List ScheduledTask)
    → is_late (now, t) ≡ true
    → length pending < pending_max
    → commit_if_due pending_max now t pending ≡ pending ++ (touched now t ∷ [])
unfolding commit_if_due commit_task set_run is_due
commit_late pending_max now t pending late room =
    let free : ltb (length pending) pending_max ≡ true = lt→ltb (length pending) pending_max room in
    rw (late, free) refl

commit_early :
    (pending_max now : ℕ) (t : ScheduledTask) (pending : List ScheduledTask)
    → is_late (now, t) ≡ false
    → commit_if_due pending_max now t pending ≡ pending
unfolding commit_if_due is_due
commit_early pending_max now t pending early = rw early refl

due_late :
    (now : ℕ) (t : ScheduledTask) (ts : List (ℕ × ScheduledTask))
    → is_late (now, t) ≡ true
    → due ((now, t) ∷ ts) ≡ (now, t) ∷ due ts
due_late now t ts late = rw late refl

due_early :
    (now : ℕ) (t : ScheduledTask) (ts : List (ℕ × ScheduledTask))
    → is_late (now, t) ≡ false
    → due ((now, t) ∷ ts) ≡ due ts
due_early now t ts early = rw early refl

round_cons :
    (pending_max now : ℕ) (t : ScheduledTask) (runners : List (ℕ × ScheduledTask))
    (pending p : List ScheduledTask) (r : List ScheduledTask × List ScheduledTask)
    → commit_if_due pending_max now t pending ≡ p
    → round pending_max runners p ≡ r
    → round pending_max ((now, t) ∷ runners) pending ≡ (ran (now, t) ∷ r.0, r.1)
unfolding round set_run is_due
round_cons pending_max now t runners pending p r c e =
    ap (λ q. let x = round pending_max runners q in (ran (now, t) ∷ x.0, x.1)) c
    ∙ ap (λ x. (ran (now, t) ∷ x.0, x.1)) e

abbrev pub touch_all : List (ℕ × ScheduledTask) → List ScheduledTask
touch_all = map (λ x. touched x.0 x.1)

abbrev pub set_all : List (ℕ × ScheduledTask) → List ScheduledTask
set_all = map ran

-- While no thread takes up a pending task, and where the thread pool has room for all tasks that are
-- due at their turns, a round of the scheduler commits exactly these, in their order, after what is
-- pending, with their time set to that of the turn, and every task that is not due is left as it is.
pub round-commits :
    (pending_max : ℕ) (runners : List (ℕ × ScheduledTask)) (pending : List ScheduledTask)
    → length pending + length (due runners) ≤ pending_max
    → round pending_max runners pending ≡ (set_all runners, pending ++ touch_all (due runners))
round-commits pending_max [] pending h = unfold round in (ap (λ p. ([], p)) (append_none pending))
round-commits pending_max ((now, t) ∷ runners) pending h = elim (Bool-cases (is_late (now, t))) [
  | inl late ↦
      let count : length (due ((now, t) ∷ runners)) ≡ length (due runners) + 1 =
        ap length (due_late now t runners late) ∙ omega arith in
      let longer : length (pending ++ (touched now t ∷ [])) ≡ length pending + 1 =
        length-append pending (touched now t ∷ []) in
      round_cons pending_max now t runners pending _ _
        (commit_late pending_max now t pending late (omega (arith, count)))
        (round-commits pending_max runners (pending ++ (touched now t ∷ []))
          (omega (arith, count, longer)))
      ∙ ap (λ p. (ran (now, t) ∷ set_all runners, p))
          (append_cons pending (touched now t) (touch_all (due runners))
            ∙ ap (λ d. pending ++ touch_all d) (sym (due_late now t runners late)))
  | inr early ↦
      let same : due ((now, t) ∷ runners) ≡ due runners = due_early now t runners early in
      round_cons pending_max now t runners pending _ _
        (commit_early pending_max now t pending early)
        (round-commits pending_max runners pending (omega (arith, ap length same)))
      ∙ ap (λ d. (ran (now, t) ∷ set_all runners, pending ++ touch_all d)) (sym same)
]

-- A task that is due has its time set by the round even if the list of pending tasks is full and the
-- task is avoided; it is due again only when more than its interval has gone by, as long as the clock
-- stays below 2^64.
pub round_avoids :
    (pending_max t now : ℕ) (task : ScheduledTask) (pending : List ScheduledTask)
    → is_due t task ≡ true
    → pending_max ≤ length pending
    → t ≤ now
    → now < 2 ^ 64
    → (round pending_max ((t, task) ∷ []) pending ≡ (touched t task ∷ [], pending))
      × ((is_due now (touched t task) ≡ true) ↔ (t + task.interval_in_ms < now))
unfolding round commit_if_due commit_task set_run is_due
round_avoids pending_max t now task pending late full order below =
    let no_room : ltb (length pending) pending_max ≡ false =
      ltb-false (length pending) pending_max full in
    (rw (late, no_room) refl, ground arith)
