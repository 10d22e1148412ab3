-- ===== src/LogSender/Order.antt =====
-- What `send_log` of log/scribe_log.cpp sends, and in which order.
use sfproxy.Prelude.{
  ℕ, ◌+◌, ◌≤◌, ◌≡◌, refl, ap, inl, inr, Bool, true, false, List, [], ◌∷◌, ◌++◌, arith, leb,
  Bool-cases, length,
}
use sfproxy.LogSender.{LogEntry, put_back, send_log}

module _ {ℓ} {W : Type ℓ} (deliver : LogEntry → W → W × Bool) (maxcache : ℕ) where
  -- What scribe is after a list of entries that were all sent.
  abbrev pub AllSent : List LogEntry → W → W → Type ℓ
  AllSent [] w w' = w ≡ w'
  AllSent (e ∷ es) w w' = ((deliver e w).1 ≡ true) × AllSent es (deliver e w).0 w'

  -- Why it stopped: nothing was left, or the first of the rest could not be sent.
  abbrev pub Stopped : List LogEntry → W → W → Type ℓ
  Stopped [] w w' = w ≡ w'
  Stopped (e ∷ es) w w' = ((deliver e w).1 ≡ false) × ((deliver e w).0 ≡ w')

  -- While no other thread writes, and with a list of at most one entry more than `maxcache`,
  -- `send_log` sends the entries in their order up to the first failure or the end, each once, and
  -- keeps exactly the others, in their order.
  pub send_log-order :
      (l : List LogEntry) (w : W)
      → length l ≤ maxcache + 1
      → let r = send_log deliver maxcache l w in
        (sent : List LogEntry) × (v : W) × (sent ++ r.1 ≡ l) × AllSent sent w v × Stopped r.1 v r.0
  unfolding send_log
  send_log-order [] w h = ([], w, refl, refl, refl)
  send_log-order (e ∷ l) w h = elim (Bool-cases (deliver e w).1) [
    | inl ok ↦
        let (sent, v, joined, all, stop) = send_log-order l (deliver e w).0 (omega arith) in
        rw (ok, send_log) (e ∷ sent, v, ap (λ xs. e ∷ xs) joined, (ok, all), stop)
    | inr bad ↦
        let short : leb (length l) maxcache ≡ true = ground arith in
        rw (bad, send_log, put_back, short) ([], w, refl, refl, (bad, refl))
  ]
