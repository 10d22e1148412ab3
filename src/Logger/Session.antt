-- ===== src/Logger/Session.antt =====
-- The life of the logger of log/logger.cpp, with a scribe that takes every entry of log/scribe_log.cpp.
use sfproxy.Prelude.{
  ℕ, ◌+◌, ◌<◌, Bool, true, Option, none, some, List, [], ◌∷◌, ◌++◌, ◌>>=◌, length, Str, codes,
}
use sfproxy.LogSender.{LogEntry}
use sfproxy.Logger.{
  fatal, warning, notice, debugging, Logger, new_logger, enable, init, log_entry, error, warn, info,
  debug, work, destory,
}

-- The calls of the program, with the text and the time of each, and the turns of the sender's thread.
pub data LogCall : Type 0 where
  errors : Str → Str → LogCall
  warns : Str → Str → LogCall
  infos : Str → Str → LogCall
  debugs : Str → Str → LogCall
  works : LogCall

-- scribe takes every entry.
abbrev pub accept : LogEntry → List LogEntry → List LogEntry × Bool
accept e w = (w ++ (e ∷ []), true)

abbrev pub with_world : List LogEntry → Option Logger → Option (Logger × List LogEntry)
with_world w none = none
with_world w (some l) = some (l, w)

unfoldable pub call : LogCall → Logger → List LogEntry → Option (Logger × List LogEntry)
unfolding error warn info debug work
call (errors text time) l w = with_world w (error text time l)
call (warns text time) l w = with_world w (warn text time l)
call (infos text time) l w = with_world w (info text time l)
call (debugs text time) l w = with_world w (debug text time l)
call works l w = some (work accept l w)

unfoldable pub calls : List LogCall → Logger → List LogEntry → Option (Logger × List LogEntry)
unfolding call
calls [] l w = some (l, w)
calls (c ∷ cs) l w = do (l', w') ← call c l w; calls cs l' w'

-- The whole life of the logger, with `n_maxcache` as given.
unfoldable pub session : ℕ → Str → List LogCall → Option (Logger × List LogEntry)
unfolding new_logger enable init calls destory
session maxcache name cs = do
  l ← init maxcache name true (enable new_logger)
  (l', w) ← calls cs l []
  destory accept l' w

-- The entry of a call: its level, its category, and its text with the name of the host.
unfoldable pub logged : Str → LogCall → List LogEntry
unfolding log_entry
logged name (errors text time) = log_entry fatal (codes "frproxy") (text ++ (b' ' ∷ name)) time ∷ []
logged name (warns text time) =
    log_entry warning (codes "sf.frproxy") (text ++ (b' ' ∷ name)) time ∷ []
logged name (infos text time) =
    log_entry notice (codes "sf.frproxy") (text ++ (b' ' ∷ name)) time ∷ []
logged name (debugs text time) =
    log_entry debugging (codes "frproxy") (text ++ (b' ' ∷ name)) time ∷ []
logged name works = []

unfoldable pub all_logged : Str → List LogCall → List LogEntry
unfolding logged
all_logged name [] = []
all_logged name (c ∷ cs) = logged name c ++ all_logged name cs

abbrev pub text_of : LogCall → Str
text_of (errors text time) = text
text_of (warns text time) = text
text_of (infos text time) = text
text_of (debugs text time) = text
text_of works = []

-- The text and the name of the host fit into the buffer of 1024 bytes.
abbrev pub Fits : Str → LogCall → Type 0
Fits name c = length (text_of c) + 1 + length name < 1024
