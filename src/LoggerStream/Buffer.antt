-- ===== src/LoggerStream/Buffer.antt =====
-- What the buffer of log/LoggerStream.cpp passes on.
use sfproxy.Prelude.{
  ℕ, zero, suc, ◌+◌, ◌≤◌, ◌<◌, ◌≡◌, refl, sym, ap, ◌∙◌, subst, inl, inr, true, false, none, some,
  [], ◌∷◌, ◌++◌, arith, ltb, ◌==◌, if◌then◌else◌, Bool-cases, length, length-append, All, Str,
}
use sfproxy.LoggerStream.{
  LoggerStream, c_text, take, buffered, flush_buffer, put, overflow, sync, sputc, sputn,
}

-- The bytes from position `i` on begin with a text.
abbrev Stands : (ℕ → ℕ) → ℕ → Str → Type 0
Stands buf i [] = Unit
Stands buf i (c ∷ text) = (buf i ≡ c) × Stands buf (suc i) text

abbrev pub NoZero : Str → Type 0
NoZero = All (λ c. 0 < c)

-- A zero at the last byte ends the reading.
c_text_ends :
    (room i : ℕ) (buf : ℕ → ℕ)
    → i + room ≡ 256
    → 0 < room
    → buf 255 ≡ 0
    → (s : Str) × (c_text room buf i ≡ some s)
unfolding c_text
c_text_ends zero i buf e p z = absurd (omega arith)
c_text_ends (suc zero) i buf e p z =
    let here : buf i ≡ 0 = subst (λ k. buf k ≡ 0) (omega arith) z in ([], rw here refl)
c_text_ends (suc (suc room)) i buf e p z = elim (Bool-cases (buf i == 0)) [
  | inl zero_byte ↦ ([], rw zero_byte refl)
  | inr other ↦
      let (s, found) = c_text_ends (suc room) (suc i) buf (omega arith) (omega arith) z in
      (buf i ∷ s, rw other (rw found refl))
]

text_found :
    (text : Str) (room i : ℕ) (buf : ℕ → ℕ)
    → Stands buf i text
    → NoZero text
    → i + room ≡ 256
    → length text < room
    → buf 255 ≡ 0
    → (s : Str) × (c_text room buf i ≡ some s) × (take (length text) s ≡ text)
unfolding c_text
text_found [] room i buf h n e p z =
    let (s, found) = c_text_ends room i buf e p z in (s, found, refl)
text_found (c ∷ text) zero i buf h n e p z = absurd (omega arith)
text_found (c ∷ text) (suc room) i buf (h, hs) (n, ns) e p z =
    let (s, found, taken) = text_found text room (suc i) buf hs ns (omega arith) (omega arith) z in
    let byte : (buf i == 0) ≡ false = ground arith in
    (buf i ∷ s, rw (byte, found) refl, rw taken (ap (λ b. b ∷ text) h))

-- Without a zero the reading leaves the buffer.
text_overruns :
    (text : Str) (room i : ℕ) (buf : ℕ → ℕ)
    → Stands buf i text
    → NoZero text
    → length text ≡ room
    → c_text room buf i ≡ none
unfolding c_text
text_overruns [] zero i buf h n e = refl
text_overruns [] (suc room) i buf h n e = absurd (omega arith)
text_overruns (c ∷ text) zero i buf h n e = absurd (omega arith)
text_overruns (c ∷ text) (suc room) i buf (h, hs) (n, ns) e =
    let byte : (buf i == 0) ≡ false = ground arith in
    rw (byte, text_overruns text room (suc i) buf hs ns (omega arith)) refl

-- The stream after bytes were put where there is room for them.
unfoldable put_all : Str → LoggerStream → LoggerStream
unfolding put
put_all [] s = s
put_all (c ∷ text) s = put_all text (put c s)

sputn-put_all :
    (text : Str) (s : LoggerStream)
    → s.len + length text ≤ 255
    → sputn text s ≡ some (put_all text s, [])
unfolding sputn sputc put_all put
sputn-put_all [] s h = refl
sputn-put_all (c ∷ text) s h =
    let room : ltb s.len 255 ≡ true = ground arith in
    rw room (rw (sputn-put_all text (put c s) (omega arith)) refl)

len-put_all : (text : Str) (s : LoggerStream) → (put_all text s).len ≡ s.len + length text
unfolding put_all put
len-put_all [] s = omega arith
len-put_all (c ∷ text) s = omega (arith, len-put_all text (put c s))

-- Bytes before the waiting ones' end stay.
buf-put_all : (text : Str) (s : LoggerStream) (i : ℕ) → i < s.len → (put_all text s).buf i ≡ s.buf i
unfolding put_all put
buf-put_all [] s i h = refl
buf-put_all (c ∷ text) s i h =
    let apart : (s.len == i) ≡ false = ground arith in
    buf-put_all text (put c s) i (omega arith) ∙ rw apart refl

last-put_all :
    (text : Str) (s : LoggerStream) (i : ℕ)
    → s.len + length text ≤ i
    → (put_all text s).buf i ≡ s.buf i
unfolding put_all put
last-put_all [] s i h = refl
last-put_all (c ∷ text) s i h =
    let apart : (s.len == i) ≡ false = ground arith in
    last-put_all text (put c s) i (omega arith) ∙ rw apart refl

put_all-Stands : (text : Str) (s : LoggerStream) → Stands (put_all text s).buf s.len text
unfolding put_all put
put_all-Stands [] s = tt
put_all-Stands (c ∷ text) s =
    let same : (s.len == s.len) ≡ true = ground arith in
    (
      buf-put_all text (put c s) s.len (omega arith) ∙ rw same refl,
      subst (λ n. Stands (put_all text (put c s)).buf n text) (omega arith)
          (put_all-Stands text (put c s)),
    )

start-Stands : (text : Str) (s : LoggerStream) → s.len ≡ 0 → Stands (put_all text s).buf 0 text
start-Stands text s e = subst (λ n. Stands (put_all text s).buf n text) e (put_all-Stands text s)

flush_text :
    (t : LoggerStream) (text r : Str)
    → 0 < t.len
    → c_text 256 t.buf 0 ≡ some r
    → take t.len r ≡ text
    → flush_buffer t ≡ some (record t { len = 0 }, text ∷ [])
unfolding flush_buffer buffered
flush_text t text r waits found taken =
    let some_wait : ltb 0 t.len ≡ true = ground arith in rw (some_wait, found) (rw taken refl)

-- Where nothing waits, nothing is passed on.
flush_all :
    (t : LoggerStream) (text r : Str)
    → t.len ≡ length text
    → c_text 256 t.buf 0 ≡ some r
    → take t.len r ≡ text
    → flush_buffer t ≡ some (record t { len = 0 }, if length text == 0 then [] else text ∷ [])
unfolding flush_buffer
flush_all t [] r e found taken =
    let none_wait : ltb 0 t.len ≡ false = ground arith in rw none_wait refl
flush_all t (c ∷ text) r e found taken =
    let some_text : (length (c ∷ text) == 0) ≡ false = ground arith in
    rw some_text (flush_text t (c ∷ text) r (omega arith) found taken)

flush_overruns : (t : LoggerStream) → 0 < t.len → c_text 256 t.buf 0 ≡ none → flush_buffer t ≡ none
unfolding flush_buffer buffered
flush_overruns t waits found =
    let some_wait : ltb 0 t.len ≡ true = ground arith in rw (some_wait, found) refl

-- An empty stream whose last byte is zero takes a text of at most 255 bytes, none of them zero, without
-- a call of the log function. `sync` then calls it once, with exactly this text, whatever else the
-- buffer still has from before; after the empty text it does not call it. The stream is as it was:
-- empty, its last byte zero.
pub sync-sputn :
    (text : Str) (s : LoggerStream)
    → s.len ≡ 0
    → s.buf 255 ≡ 0
    → NoZero text
    → length text ≤ 255
    → (t : LoggerStream) × (u : LoggerStream) × (sputn text s ≡ some (t, []))
      × (sync t ≡ some (u, if length text == 0 then [] else text ∷ []))
      × (u.len ≡ 0)
      × (u.buf 255 ≡ 0)
unfolding sync
sync-sputn text s empty zero_end n short =
    let t = put_all text s in
    let all : t.len ≡ length text = omega (arith, len-put_all text s) in
    let end : t.buf 255 ≡ 0 = last-put_all text s 255 (omega arith) ∙ zero_end in
    let (r, found, taken) =
      text_found text 256 0 t.buf (start-Stands text s empty) n refl (omega arith) end in
    (
      t,
      record t { len = 0 },
      sputn-put_all text s (omega arith),
      flush_all t text r all found (subst (λ k. take k r ≡ text) (sym all) taken),
      refl,
      end,
    )

sputn_fails :
    (text rest : Str) (s : LoggerStream)
    → s.len + length text ≤ 255
    → sputn rest (put_all text s) ≡ none
    → sputn (text ++ rest) s ≡ none
unfolding sputn sputc put_all put
sputn_fails [] rest s h e = e
sputn_fails (c ∷ text) rest s h e =
    let room : ltb s.len 255 ≡ true = ground arith in
    rw room (rw (sputn_fails text rest (put c s) (omega arith) e) refl)

sputn_full :
    (c : ℕ) (t : LoggerStream)
    → t.len ≡ 255
    → c_text 256 (put c t).buf 0 ≡ none
    → sputn (c ∷ []) t ≡ none
unfolding sputn sputc overflow put
sputn_full c t full over =
    let no_room : ltb t.len 255 ≡ false = ground arith in
    rw no_room (rw (flush_overruns (put c t) (omega arith) over) refl)

put_all-append :
    (text rest : Str) (s : LoggerStream) → put_all (text ++ rest) s ≡ put_all rest (put_all text s)
unfolding put_all
put_all-append [] rest s = refl
put_all-append (c ∷ text) rest s = put_all-append text rest (put c s)

-- A text of 256 bytes, none of them zero, fills the buffer of an empty stream to its last byte: the
-- string that is made of it then reads past its end.
pub sputn_overruns :
    (text : Str) (c : ℕ) (s : LoggerStream)
    → s.len ≡ 0
    → NoZero (text ++ (c ∷ []))
    → length text ≡ 255
    → sputn (text ++ (c ∷ [])) s ≡ none
unfolding put_all
sputn_overruns text c s empty n long =
    let all = text ++ (c ∷ []) in
    let stands = start-Stands all s empty in
    let over : c_text 256 (put_all all s).buf 0 ≡ none =
      text_overruns all 256 0 (put_all all s).buf stands n
        (omega (arith, length-append text (c ∷ []))) in
    sputn_fails text (c ∷ []) s (omega arith) (
      sputn_full c (put_all text s) (omega (arith, len-put_all text s))
        (subst (λ t. c_text 256 t.buf 0 ≡ none) (put_all-append text (c ∷ []) s) over))
