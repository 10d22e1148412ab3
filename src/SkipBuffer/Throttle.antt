-- ===== src/SkipBuffer/Throttle.antt =====
-- How often core/SkipBuffer.h lets one path through.
use sfproxy.Prelude.{
  ℕ, ◌+◌, ◌-◌, ◌%◌, ◌^◌, ◌≤◌, ◌<◌, ◌≡◌, refl, sym, ◌∙◌, subst, ◌≢◌, ◌↔◌, ◌⊎◌, inl, inr, true, false,
  some, List, [], ◌∷◌, arith, Bool-cases, All, Str, str_eq, str_eq_iff, str_eq_refl,
}
use sfproxy.OrderedMap.{find}
use sfproxy.OrderedMap.Laws.{find-insert, find-erase}
use sfproxy.SkipBuffer.{SkipBuffer, elapsed, drop_timed_out, insert, release}

pub data BufferCall : Type 0 where
  inserts : Str → ℕ → BufferCall
  releases : Str → BufferCall

unfoldable pub step : BufferCall → SkipBuffer → SkipBuffer
unfolding insert release
step (inserts zkpath now_ms) b = (insert zkpath now_ms b).0
step (releases key) b = release key b

unfoldable pub run : List BufferCall → SkipBuffer → SkipBuffer
unfolding step
run [] b = b
run (c ∷ cs) b = run cs (step c b)

-- A call about another path, or a request for this one within the timeout.
abbrev pub IsQuiet : Str → ℕ → ℕ → BufferCall → Type 0
IsQuiet path t timeout (inserts zkpath now_ms) =
    (zkpath ≢ path) ⊎ ((t ≤ now_ms) × (now_ms ≤ t + timeout))
IsQuiet path t timeout (releases key) = key ≢ path

-- The entry of `path` is that of time `t`.
pub record Holds (path : Str) (t timeout : ℕ) (b : SkipBuffer) : Type 0 where
  pub held : find path b.entries ≡ some (t % 2 ^ 32)
  pub same : b.timeout ≡ timeout
  pub short : timeout < 2 ^ 32

elapsed_true :
    (t now : ℕ) → t ≤ now → now < t + 2 ^ 32 → elapsed (now % 2 ^ 32) (t % 2 ^ 32) ≡ now - t
unfolding elapsed
elapsed_true t now h k = omega arith

insert_ne :
    (zkpath path : Str) (now : ℕ) (b : SkipBuffer)
    → zkpath ≢ path
    → find path (insert zkpath now b).0.entries ≡ find path b.entries
unfolding insert drop_timed_out
insert_ne zkpath path now b d = ground (
  arith,
  str_eq_iff zkpath path,
  find-insert zkpath path (now % 2 ^ 32) (drop_timed_out zkpath (now % 2 ^ 32) b),
  find-erase zkpath path b.entries,
)

insert_early :
    (path : Str) (t now : ℕ) (b : SkipBuffer)
    → Holds path t b.timeout b
    → t ≤ now
    → now ≤ t + b.timeout
    → (find path (insert path now b).0.entries ≡ some (t % 2 ^ 32))
      × ((insert path now b).1 ≡ false)
unfolding insert drop_timed_out
insert_early path t now b h early late =
    rw (h.held, drop_timed_out)
      (ground (
        arith,
        elapsed_true t now early (omega arith),
        h.held,
        find-insert path path (now % 2 ^ 32) b.entries,
        str_eq_refl path,
      ))

insert_late :
    (path : Str) (t now : ℕ) (b : SkipBuffer)
    → Holds path t b.timeout b
    → t + b.timeout < now
    → now < t + 2 ^ 32
    → (insert path now b).1 ≡ true
unfolding insert drop_timed_out
insert_late path t now b h late near = ground (
  arith,
  elapsed_true t now (omega arith) near,
  h.held,
  find-erase path path b.entries,
  str_eq_refl path,
)

release_ne :
    (key path : Str) (b : SkipBuffer)
    → key ≢ path
    → find path (release key b).entries ≡ find path b.entries
unfolding release
release_ne key path b d = ground (arith, str_eq_iff key path, find-erase key path b.entries)

step-timeout : (c : BufferCall) (b : SkipBuffer) → (step c b).timeout ≡ b.timeout
unfolding step insert release
step-timeout (inserts zkpath now_ms) b = refl
step-timeout (releases key) b = refl

step-Holds :
    (path : Str) (t timeout : ℕ) (c : BufferCall) (b : SkipBuffer)
    → IsQuiet path t timeout c
    → Holds path t timeout b
    → Holds path t timeout (step c b)
unfolding step
step-Holds path t timeout (inserts zkpath now) b (inl other) h = record {
  held = insert_ne zkpath path now b other ∙ h.held;
  same = step-timeout (inserts zkpath now) b ∙ h.same;
  short = h.short;
}
step-Holds path t timeout (inserts zkpath now) b (inr when) h =
    elim (Bool-cases (str_eq zkpath path)) [
      | inl own ↦ record {
        held =
            subst (λ p. find path (insert p now b).0.entries ≡ some (t % 2 ^ 32))
              (sym ((str_eq_iff zkpath path).0 own))
              (insert_early path t now b
                (record { held = h.held; same = refl; short = omega arith }) when.0
                (omega arith)).0;
        same = step-timeout (inserts zkpath now) b ∙ h.same;
        short = h.short;
      }
      | inr foreign ↦ record {
        held = insert_ne zkpath path now b (λ e. ground (arith, str_eq_iff zkpath path)) ∙ h.held;
        same = step-timeout (inserts zkpath now) b ∙ h.same;
        short = h.short;
      }
    ]
step-Holds path t timeout (releases key) b other h = record {
  held = release_ne key path b other ∙ h.held;
  same = step-timeout (releases key) b ∙ h.same;
  short = h.short;
}

run-Holds :
    (path : Str) (t timeout : ℕ) (cs : List BufferCall) (b : SkipBuffer)
    → All (IsQuiet path t timeout) cs
    → Holds path t timeout b
    → Holds path t timeout (run cs b)
unfolding run
run-Holds path t timeout [] b q h = h
run-Holds path t timeout (c ∷ cs) b q h =
    run-Holds path t timeout cs (step c b) q.1 (step-Holds path t timeout c b q.0 h)

granted-Holds :
    (path : Str) (t : ℕ) (b : SkipBuffer)
    → b.timeout < 2 ^ 32
    → (insert path t b).1 ≡ true
    → Holds path t b.timeout (insert path t b).0
unfolding insert
granted-Holds path t b s g = record {
  held = ground (
    arith,
    str_eq_refl path,
    find-insert path path (t % 2 ^ 32) (drop_timed_out path (t % 2 ^ 32) b),
  );
  same = refl;
  short = s;
}

again_iff :
    (path : Str) (t timeout now : ℕ) (b : SkipBuffer)
    → Holds path t timeout b
    → t ≤ now
    → now < t + 2 ^ 32
    → ((insert path now b).1 ≡ true) ↔ (t + timeout < now)
again_iff path t timeout now b h early near =
    let h' : Holds path t b.timeout b = record {
      held = h.held;
      same = refl;
      short = omega arith;
    } in
    (
      (λ g. ground (arith, insert_early path t now b h' early)),
      (λ late. insert_late path t now b h' (omega arith) near),
    )

-- Once a path is let through at time `t`, and while it is not released and is asked for only within
-- the timeout, with any calls about other paths in between, the next request for it at a time `now`
-- is let through exactly when more than the timeout has gone by. This holds across a wrap of the
-- 32-bit clock, as long as `now` is less than 2^32 milliseconds after `t`.
pub throttled :
    (path : Str) (t now : ℕ) (b : SkipBuffer) (cs : List BufferCall)
    → b.timeout < 2 ^ 32
    → (insert path t b).1 ≡ true
    → All (IsQuiet path t b.timeout) cs
    → t ≤ now
    → now < t + 2 ^ 32
    → ((insert path now (run cs (insert path t b).0)).1 ≡ true) ↔ (t + b.timeout < now)
throttled path t now b cs s g q early near =
    again_iff path t b.timeout now (run cs (insert path t b).0)
      (run-Holds path t b.timeout cs (insert path t b).0 q (granted-Holds path t b s g)) early near

-- A path that has been released is let through at the next request, whatever the clock says.
pub insert-release :
    (path : Str) (now : ℕ) (b : SkipBuffer) → (insert path now (release path b)).1 ≡ true
unfolding insert release drop_timed_out
insert-release path now b = ground (arith, find-erase path path b.entries, str_eq_refl path)
