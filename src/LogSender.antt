-- ===== src/LogSender.antt =====
-- `BufferedLogSender` of log/scribe_log.cpp: log entries wait in a bounded list for a thread that
-- sends them to scribe. The list is locked for each single step; sending is not.
pub mod Bound
pub mod Order
pub mod Tests
use sfproxy.Prelude.{
  ℕ, zero, suc, ◌+◌, ◌-◌, ◌*◌, ◌/◌, ◌%◌, ◌^◌, ◌≤◌, ◌<◌, ◌≡◌, refl, sym, ap, ◌∙◌, subst, ◌≢◌, ◌↔◌,
  ◌⊎◌, inl, inr, Bool, true, false, ◌&&◌, ◌||◌, not, Option, none, some, List, [], ◌∷◌, ◌++◌, map,
  arith, ltb, leb, ◌==◌, if◌then◌else◌, ◌>>=◌, ◌>>◌, ltb→lt, lt→ltb, ltb-false, ==_iff, Bool-cases,
  Option-cases, length, length-append, keep_if, length-keep_if-le, keep_if-append, All, All-append,
  All-keep_if, Str, codes, str_eq, str_lt, str_eq_iff, str_eq_refl, ℤ, pos, negsuc, pos_part,
  neg_part, sub_ℕ, ◌+ℤ◌, ltb_ℤ, eq_ℤ,
}

pub record LogEntry : Type 0 where
  pub category : Str
  pub message : Str

-- `write`: the oldest entry gives way when the list is too long.
unfoldable pub write : ℕ → LogEntry → List LogEntry → List LogEntry
write maxcache log [] = if ltb maxcache 1 then [] else log ∷ []
write maxcache log (e ∷ msg_list) =
    if ltb maxcache (length (e ∷ msg_list) + 1)
    then msg_list ++ (log ∷ [])
    else e ∷ (msg_list ++ (log ∷ []))

-- The locked part of `send_log` after a failure.
unfoldable pub put_back : ℕ → LogEntry → List LogEntry → List LogEntry
put_back maxcache begin msg_list =
    if leb (length msg_list) maxcache then begin ∷ msg_list else msg_list

-- `send_log` while no other thread writes. `deliver` is the sending to scribe, with what it depends
-- on; its flag tells whether it succeeded.
module _ {ℓ} {W : Type ℓ} (deliver : LogEntry → W → W × Bool) (maxcache : ℕ) where
  unfoldable pub send_log : List LogEntry → W → W × List LogEntry
  unfolding put_back
  send_log [] w = (w, [])
  send_log (e ∷ msg_list) w =
      let (w', sent) = deliver e w in
      elim sent [ true ↦ send_log msg_list w' | false ↦ (w', put_back maxcache e msg_list) ]

-- The two threads: the list, and the entry that is being sent.
pub record Sender : Type 0 where
  pub msg_list : List LogEntry
  pub begin : Option LogEntry

pub data SenderStep (maxcache : ℕ) : Sender → Sender → Type 0 where
  writes :
      (log : LogEntry) (msg_list : List LogEntry) (begin : Option LogEntry)
      → SenderStep maxcache
          (record { msg_list = msg_list; begin = begin })
          (record { msg_list = write maxcache log msg_list; begin = begin })
  takes :
      (e : LogEntry) (msg_list : List LogEntry)
      → SenderStep maxcache
          (record { msg_list = e ∷ msg_list; begin = none })
          (record { msg_list = msg_list; begin = some e })
  succeeds :
      (e : LogEntry) (msg_list : List LogEntry)
      → SenderStep maxcache
          (record { msg_list = msg_list; begin = some e })
          (record { msg_list = msg_list; begin = none })
  fails :
      (e : LogEntry) (msg_list : List LogEntry)
      → SenderStep maxcache
          (record { msg_list = msg_list; begin = some e })
          (record { msg_list = put_back maxcache e msg_list; begin = none })

pub data SenderReaches (maxcache : ℕ) : Sender → Type 0 where
  starts : SenderReaches maxcache (record { msg_list = []; begin = none })
  follows :
      {s t : Sender} → SenderReaches maxcache s → SenderStep maxcache s t → SenderReaches maxcache t
