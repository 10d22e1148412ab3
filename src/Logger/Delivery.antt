-- ===== src/Logger/Delivery.antt =====
-- From a call of log/logger.cpp to scribe: what log/scribe_log.cpp delivers.
use sfproxy.Prelude.{
  ℕ, ◌+◌, ◌≤◌, ◌<◌, ◌≡◌, refl, sym, ap, ◌∙◌, true, false, some, List, [], ◌∷◌, ◌++◌, arith, ltb,
  length, length-append, All, Str, codes,
}
use mathlib.Core.List.{append_assoc, append-nil}
use sfproxy.LogSender.{LogEntry, write, send_log}
use sfproxy.Logger.{
  Level, fatal, warning, notice, debugging, named, deleted, Logger, new_logger, enable, init,
  log_init, log_entry, log_write, formatted, with_host, send, error, warn, info, debug, work,
  log_uninit, destory,
}
use sfproxy.Logger.Session.{
  LogCall, errors, warns, infos, debugs, works, accept, call, calls, session, logged, all_logged,
  Fits,
}

-- An enabled logger with a working sender.
abbrev live : ℕ → Str → List LogEntry → List Str → Logger
live maxcache name msg_list lines = record {
  switcher = true;
  hostname = named (b' ' ∷ name);
  sender = some (record { valid = true; working = true; maxcache = maxcache; msg_list = msg_list });
  lines = lines;
}

write_room :
    (maxcache : ℕ) (e : LogEntry) (q : List LogEntry)
    → length q + 1 ≤ maxcache
    → write maxcache e q ≡ q ++ (e ∷ [])
unfolding write
write_room maxcache e [] h = ground arith
write_room maxcache e (x ∷ q) h = ground arith

module _ (maxcache : ℕ) where
  send_all : (q w : List LogEntry) → send_log accept maxcache q w ≡ (w ++ q, [])
  unfolding send_log
  send_all [] w = rw (append-nil w) refl
  send_all (e ∷ q) w = send_all q (w ++ (e ∷ [])) ∙ rw (append_assoc w (e ∷ []) q) refl

  module _ (name : Str) where
    sent :
        (level : Level) (category text time : Str) (q : List LogEntry) (lines : List Str)
        → length text + 1 + length name < 1024
        → length q + 1 ≤ maxcache
        → send level category text time (live maxcache name q lines)
          ≡ some (
              live maxcache name
                (q ++ (log_entry level category (text ++ (b' ' ∷ name)) time ∷ []))
                lines)
    unfolding send with_host log_write
    sent level category text time q lines fits room =
        let fit : ltb (length text + length (b' ' ∷ name)) 1024 ≡ true = ground arith in
        rw fit (
          rw (write_room maxcache (log_entry level category (text ++ (b' ' ∷ name)) time) q room)
            refl)

    joined : (w q : List LogEntry) (e : LogEntry) → w ++ (q ++ (e ∷ [])) ≡ (w ++ q) ++ (e ∷ [])
    joined w q e = sym (append_assoc w q (e ∷ []))

    whole : (text : Str) → length text + 1 + length name < 1024 → ltb (length text) 1024 ≡ true
    whole text fits = ground arith

    longer : (q : List LogEntry) (e : LogEntry) → length (q ++ (e ∷ [])) ≤ length q + 1
    longer q e = omega (arith, length-append q (e ∷ []))

    call-logged :
        (c : LogCall) (q w : List LogEntry) (lines : List Str)
        → Fits name c
        → length q + length (logged name c) ≤ maxcache
        → (q' w' : List LogEntry) × (lines' : List Str) × (call c (live maxcache name q lines) w
            ≡ some (live maxcache name q' lines', w'))
          × (w' ++ q' ≡ (w ++ q) ++ logged name c)
          × (length q' ≤ length q + length (logged name c))
    unfolding call error warn info debug formatted work logged
    call-logged (errors text time) q w lines fits room =
        let e = log_entry fatal (codes "frproxy") (text ++ (b' ' ∷ name)) time in
        (
          q ++ (e ∷ []),
          w,
          lines ++ (text ∷ []),
          rw (whole text fits)
              (rw (sent fatal (codes "frproxy") text time q (lines ++ (text ∷ [])) fits room) refl),
          joined w q e,
          longer q e,
        )
    call-logged (warns text time) q w lines fits room =
        let e = log_entry warning (codes "sf.frproxy") (text ++ (b' ' ∷ name)) time in
        (
          q ++ (e ∷ []),
          w,
          lines ++ (text ∷ []),
          rw (whole text fits) (
              rw (sent warning (codes "sf.frproxy") text time q (lines ++ (text ∷ [])) fits room)
                refl),
          joined w q e,
          longer q e,
        )
    call-logged (infos text time) q w lines fits room =
        let e = log_entry notice (codes "sf.frproxy") (text ++ (b' ' ∷ name)) time in
        (
          q ++ (e ∷ []),
          w,
          lines,
          rw (whole text fits)
              (rw (sent notice (codes "sf.frproxy") text time q (lines) fits room) refl),
          joined w q e,
          longer q e,
        )
    call-logged (debugs text time) q w lines fits room =
        let e = log_entry debugging (codes "frproxy") (text ++ (b' ' ∷ name)) time in
        (
          q ++ (e ∷ []),
          w,
          lines,
          rw (whole text fits)
              (rw (sent debugging (codes "frproxy") text time q (lines) fits room) refl),
          joined w q e,
          longer q e,
        )
    call-logged works q w lines fits room =
        ([], w ++ q, lines, rw (send_all q w) refl, rw (append-nil (w ++ q)) refl, omega arith)

    calls-logged :
        (cs : List LogCall) (q w : List LogEntry) (lines : List Str)
        → All (Fits name) cs
        → length q + length (all_logged name cs) ≤ maxcache
        → (q' w' : List LogEntry) × (lines' : List Str) × (calls cs (live maxcache name q lines) w
            ≡ some (live maxcache name q' lines', w'))
          × (w' ++ q' ≡ (w ++ q) ++ all_logged name cs)
    unfolding calls all_logged
    calls-logged [] q w lines fits room = (q, w, lines, refl, sym (append-nil (w ++ q)))
    calls-logged (c ∷ cs) q w lines fits room =
        let both = length-append (logged name c) (all_logged name cs) in
        let (q1, w1, lines1, e, joined1, few) =
          call-logged c q w lines fits.0 (omega (arith, both, room)) in
        let (q2, w2, lines2, e2, joined2) =
          calls-logged cs q1 w1 lines1 fits.1 (omega (arith, both, room, few)) in
        (
          q2,
          w2,
          lines2,
          rw e e2,
          joined2
              ∙ ap (λ x. x ++ all_logged name cs) joined1
              ∙ append_assoc (w ++ q) (logged name c) (all_logged name cs),
        )

    -- With a thread for the sender, a host name of less than 128 bytes, texts that fit into the buffer of
    -- 1024 bytes together with that name, at most as many messages as the list may hold, and a scribe that
    -- takes every entry: an enabled logger delivers each message, once, in order, with its level, category
    -- and time, whenever the thread takes its turns.
    pub session-delivers :
        (cs : List LogCall)
        → length name < 128
        → All (Fits name) cs
        → length (all_logged name cs) ≤ maxcache
        → (l : Logger) × (session maxcache name cs ≡ some (l, all_logged name cs))
    unfolding session new_logger enable init log_init destory log_uninit
    session-delivers cs short fits room =
        let (q, w, lines, e, joined) = calls-logged cs [] [] [] fits (omega (arith, room)) in
        let named_right : ltb (length name) 128 ≡ true = ground arith in
        (
          record (live maxcache name [] lines) {
            hostname = deleted;
            sender =
                some (record { valid = true; working = false; maxcache = maxcache; msg_list = [] });
          },
          rw named_right (rw e (rw (send_all q w) (rw joined refl))),
        )
