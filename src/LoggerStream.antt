-- ===== src/LoggerStream.antt =====
-- core of log/LoggerStream.h and log/LoggerStream.cpp: a stream whose text goes to a log function, by way
-- of a buffer of 256 bytes. A result of `none` is a read past the end of the buffer.
pub mod Buffer
pub mod Tests
use sfproxy.Prelude.{
  ℕ, zero, suc, ◌+◌, ◌-◌, ◌*◌, ◌/◌, ◌%◌, ◌^◌, ◌≤◌, ◌<◌, ◌≡◌, refl, sym, ap, ◌∙◌, subst, ◌≢◌, ◌↔◌,
  ◌⊎◌, inl, inr, Bool, true, false, ◌&&◌, ◌||◌, not, Option, none, some, List, [], ◌∷◌, ◌++◌, map,
  arith, ltb, leb, ◌==◌, if◌then◌else◌, ◌>>=◌, ◌>>◌, ltb→lt, lt→ltb, ltb-false, ==_iff, Bool-cases,
  Option-cases, length, length-append, keep_if, length-keep_if-le, keep_if-append, All, All-append,
  All-keep_if, Str, codes, str_eq, str_lt, str_eq_iff, str_eq_refl, ℤ, pos, negsuc, pos_part,
  neg_part, sub_ℕ, ◌+ℤ◌, ltb_ℤ, eq_ℤ,
}

abbrev pub buffer_size : ℕ
buffer_size = 256

-- The bytes of `buf_`, and how many of them wait: `pptr() - pbase()`.
pub record LoggerStream : Type 0 where
  pub buf : ℕ → ℕ
  pub len : ℕ

-- The text at position `i` up to the first zero, over the bytes that are left.
unfoldable pub c_text : ℕ → (ℕ → ℕ) → ℕ → Option Str
c_text zero buf i = none
c_text (suc room) buf i =
    let rest = c_text room buf (suc i) in
    if buf i == 0 then some [] else (do s ← rest; some (buf i ∷ s))

abbrev pub take : ℕ → Str → Str
take zero s = []
take (suc n) [] = []
take (suc n) (c ∷ s) = c ∷ take n s

-- `string s(buf_, 0, len)`: the buffer becomes a string up to its first zero, of which the first `len`
-- bytes are taken.
unfoldable pub buffered : LoggerStream → Option Str
unfolding c_text
buffered s = do text ← c_text buffer_size s.buf 0; some (take s.len text)

-- `flush_buffer`: what the log function is called with.
unfoldable pub flush_buffer : LoggerStream → Option (LoggerStream × List Str)
unfolding buffered
flush_buffer s =
    if ltb 0 s.len
    then (do text ← buffered s; some (record s { len = 0 }, text ∷ []))
    else some (record s { len = 0 }, [])

-- `*pptr() = c; pbump(1)`.
unfoldable pub put : ℕ → LoggerStream → LoggerStream
put c s = record s { buf = λ i. if s.len == i then c else s.buf i; len = s.len + 1 }

-- `overflow` of a byte.
unfoldable pub overflow : ℕ → LoggerStream → Option (LoggerStream × List Str)
unfolding put flush_buffer
overflow c s = flush_buffer (put c s)

-- `sync`, which finds no error.
unfoldable pub sync : LoggerStream → Option (LoggerStream × List Str)
unfolding flush_buffer
sync s = flush_buffer s

-- `sputc` of std::streambuf: the put area ends one byte before the buffer does.
unfoldable pub sputc : ℕ → LoggerStream → Option (LoggerStream × List Str)
unfolding put overflow
sputc c s = if ltb s.len (buffer_size - 1) then some (put c s, []) else overflow c s

-- A text, byte by byte, and all that the log function was called with.
unfoldable pub sputn : Str → LoggerStream → Option (LoggerStream × List Str)
unfolding sputc
sputn [] s = some (s, [])
sputn (c ∷ text) s = do (s1, out) ← sputc c s; (s2, more) ← sputn text s1; some (s2, out ++ more)
