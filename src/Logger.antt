-- ===== src/Logger.antt =====
-- log/logger.cpp, with LogInit, LogWrite and LogUninit of log/scribe_log.cpp, which it calls. The texts
-- that the formats and their arguments make are arguments, and so are the time of a message, the name
-- of the host, and whether a thread could be created. A result of `none` is undefined behaviour.
pub mod Session
pub mod Delivery
pub mod Tests
use sfproxy.Prelude.{
  ℕ, zero, suc, ◌+◌, ◌-◌, ◌*◌, ◌/◌, ◌%◌, ◌^◌, ◌≤◌, ◌<◌, ◌≡◌, refl, sym, ap, ◌∙◌, subst, ◌≢◌, ◌↔◌,
  ◌⊎◌, inl, inr, Bool, true, false, ◌&&◌, ◌||◌, not, Option, none, some, List, [], ◌∷◌, ◌++◌, map,
  arith, ltb, leb, ◌==◌, if◌then◌else◌, ◌>>=◌, ◌>>◌, ltb→lt, lt→ltb, ltb-false, ==_iff, Bool-cases,
  Option-cases, length, length-append, keep_if, length-keep_if-le, keep_if-append, All, All-append,
  All-keep_if, Str, codes, str_eq, str_lt, str_eq_iff, str_eq_refl, ℤ, pos, negsuc, pos_part,
  neg_part, sub_ℕ, ◌+ℤ◌, ltb_ℤ, eq_ℤ,
}
use sfproxy.LogSender.{LogEntry, write, send_log}

pub data Level : Type 0 where
  fatal : Level
  warning : Level
  notice : Level
  trace : Level
  debugging : Level

-- The switch of `LogWrite`.
unfoldable pub level_text : Level → Str
level_text fatal = codes "FATAL"
level_text warning = codes "WARNING"
level_text notice = codes "INFO"
level_text trace = codes "TRACE"
level_text debugging = codes "DEBUG"

-- `p_buffered_sender`: `working` until it is joined.
pub record BufferedSender : Type 0 where
  pub valid : Bool
  pub working : Bool
  pub maxcache : ℕ
  pub msg_list : List LogEntry

-- `hostname`: allocated, filled, or null.
pub data HostName : Type 0 where
  unset : HostName
  named : Str → HostName
  deleted : HostName

pub record Logger : Type 0 where
  pub switcher : Bool
  pub hostname : HostName
  pub sender : Option BufferedSender
  -- The lines on the standard output.
  pub lines : List Str

unfoldable pub new_logger : Logger
new_logger = record { switcher = false; hostname = unset; sender = none; lines = [] }

unfoldable pub enable : Logger → Logger
enable l = record l { switcher = true }

-- `LogInit`; `created` tells whether the thread could be created.
unfoldable pub log_init : ℕ → Bool → Logger → Logger
log_init maxcache created l = record l {
  sender = some (record { valid = created; working = created; maxcache = maxcache; msg_list = [] });
}

abbrev pub hostname_size : ℕ
hostname_size = 129

-- `init`: a name that fills the buffer is not ended by a zero.
unfoldable pub init : ℕ → Str → Bool → Logger → Option Logger
unfolding log_init
init maxcache name created l =
    let l' = record l { hostname = named (b' ' ∷ name) } in
    elim l.hostname [
      | deleted ↦ none
      | unset ↦
          if ltb (length name) (hostname_size - 1)
          then some (if l.switcher then log_init maxcache created l' else l')
          else none
      | named old ↦
          if ltb (length name) (hostname_size - 1)
          then some (if l.switcher then log_init maxcache created l' else l')
          else none
    ]

-- `LogWrite` of a level, a category and a message.
unfoldable pub log_entry : Level → Str → Str → Str → LogEntry
unfolding level_text
log_entry level category message current_time = record {
  category = category;
  message =
      current_time
      ++ (codes " " ++ (codes "[" ++ (level_text level ++ (codes "]" ++ (codes " " ++ message)))));
}

unfoldable pub log_write : Level → Str → Str → Str → Logger → Logger
unfolding log_entry write
log_write level category message current_time l = elim l.sender [
  | none ↦ l
  | some s ↦
      if s.valid
      then record l {
        sender = some (record s {
          msg_list = write s.maxcache (log_entry level category message current_time) s.msg_list;
        });
      }
      else l
]

-- `vsprintf` into `message`.
unfoldable pub formatted : Str → Option Str
formatted text = if ltb (length text) 1024 then some text else none

-- `strcat(message, hostname)`.
unfoldable pub with_host : HostName → Str → Option Str
with_host unset text = none
with_host deleted text = none
with_host (named host) text =
    if ltb (length text + length host) 1024 then some (text ++ host) else none

-- The last part of each function.
unfoldable pub send : Level → Str → Str → Str → Logger → Option Logger
unfolding with_host log_write
send level category text current_time l =
    if l.switcher
    then (do m ← with_host l.hostname text; some (log_write level category m current_time l))
    else some l

-- `cout << message << endl`.
abbrev pub print_line : Str → Logger → Logger
print_line text l = record l { lines = l.lines ++ (text ∷ []) }

unfoldable pub error : Str → Str → Logger → Option Logger
unfolding formatted send
error text current_time l = do
  t ← formatted text
  send fatal (codes "frproxy") t current_time (print_line t l)

unfoldable pub warn : Str → Str → Logger → Option Logger
unfolding formatted send
warn text current_time l = do
  t ← formatted text
  send warning (codes "sf.frproxy") t current_time (print_line t l)

-- Without `DEBUG_`, `info` and `debug` print nothing, and format only what they send.
unfoldable pub info : Str → Str → Logger → Option Logger
unfolding formatted send
info text current_time l =
    if l.switcher
    then (do t ← formatted text; send notice (codes "sf.frproxy") t current_time l)
    else some l

unfoldable pub debug : Str → Str → Logger → Option Logger
unfolding formatted send
debug text current_time l =
    if l.switcher
    then (do t ← formatted text; send debugging (codes "frproxy") t current_time l)
    else some l

-- The thread of the sender: `deliver` sends an entry to scribe.
module _ {W : Type 0} (deliver : LogEntry → W → W × Bool) where
  abbrev pub drain : BufferedSender → W → W × BufferedSender
  drain s w =
      let (w', msg_list) = send_log deliver s.maxcache s.msg_list w in
      (w', record s { msg_list = msg_list })

  -- A turn of `worker`.
  unfoldable pub work : Logger → W → Logger × W
  unfolding send_log
  work l w = elim l.sender [
    | none ↦ (l, w)
    | some s ↦
        if s.working
        then (let (w', s') = drain s w in (record l { sender = some s' }, w'))
        else (l, w)
  ]

  -- `LogUninit`: the thread ends with a last turn. No thread can be joined that was not created, or
  -- twice; the sender stays valid.
  unfoldable pub log_uninit : Logger → W → Option (Logger × W)
  unfolding send_log
  log_uninit l w = elim l.sender [
    | none ↦ some (l, w)
    | some s ↦
        if s.working
        then (let (w', s') = drain s w in
            some (record l { sender = some (record s' { working = false }) }, w'))
        else none
  ]

  -- `destory`.
  unfoldable pub destory : Logger → W → Option (Logger × W)
  unfolding log_uninit
  destory l w = log_uninit (record l { hostname = deleted }) w
