-- ===== src/FileCache.antt =====
-- core/FileCache.h and core/FileCache.cpp: a text file that is written or read as a whole, over
-- std::fstream. What is written waits in the stream until it is flushed or closed.
pub mod Roundtrip
pub mod Tests
use sfproxy.Prelude.{
  ℕ, zero, suc, ◌+◌, ◌-◌, ◌*◌, ◌/◌, ◌%◌, ◌^◌, ◌≤◌, ◌<◌, ◌≡◌, refl, sym, ap, ◌∙◌, subst, ◌≢◌, ◌↔◌,
  ◌⊎◌, inl, inr, Bool, true, false, ◌&&◌, ◌||◌, not, Option, none, some, List, [], ◌∷◌, ◌++◌, map,
  arith, ltb, leb, ◌==◌, if◌then◌else◌, ◌>>=◌, ◌>>◌, ltb→lt, lt→ltb, ltb-false, ==_iff, Bool-cases,
  Option-cases, length, length-append, keep_if, length-keep_if-le, keep_if-append, All, All-append,
  All-keep_if, Str, codes, str_eq, str_lt, str_eq_iff, str_eq_refl, ℤ, pos, negsuc, pos_part,
  neg_part, sub_ℕ, ◌+ℤ◌, ltb_ℤ, eq_ℤ,
}
use sfproxy.OrderedMap.{Map, find, insert, modify}

-- The files by name, and which names may be opened for writing.
pub record Disk : Type 0 where
  pub files : Map Str
  pub writable : Str → Bool

pub data OpenMode : Type 0 where
  reading : OpenMode
  writing : OpenMode

pub record FileCache : Type 0 where
  pub filename : Str
  -- The mode of `file`, if it is open.
  pub opened : Option OpenMode
  -- The failbit and the badbit of `file`.
  pub failed : Bool
  pub bad : Bool
  -- What was written and is not in the file yet.
  pub pending : Str

-- `FileCache(filename)`.
unfoldable pub new_file : Str → FileCache
new_file filename = record {
  filename = filename;
  opened = none;
  failed = false;
  bad = false;
  pending = [];
}

-- The file with a content, whether or not it was there.
unfoldable pub put : Str → Str → Map Str → Map Str
put name content files = modify name (λ _. content) (insert name content files)

-- `file.open(filename, mode)` of a stream that is not open. Writing starts with an empty file.
unfoldable pub open_stream : OpenMode → FileCache → Disk → FileCache × Disk
unfolding put
open_stream reading f disk = elim (find f.filename disk.files) [
  | none ↦ (record f { failed = true }, disk)
  | some _ ↦ (record f { opened = some reading; failed = false; bad = false }, disk)
]
open_stream writing f disk =
    if disk.writable f.filename
    then (
      record f { opened = some writing; failed = false; bad = false },
      record disk { files = put f.filename [] disk.files },
    )
    else (record f { failed = true }, disk)

abbrev pub is_some {ℓ} : {A : Type ℓ} → Option A → Bool
is_some none = false
is_some (some a) = true

unfoldable pub is_open : FileCache → Bool
is_open f = is_some f.opened

unfoldable pub open_file : OpenMode → FileCache → Disk → FileCache × Disk × Bool
unfolding is_open open_stream
open_file mode f disk =
    if is_open f
    then (f, disk, false)
    else (let (f', disk') = open_stream mode f disk in (f', disk', not (f'.failed || f'.bad)))

unfoldable pub open_read : FileCache → Disk → FileCache × Disk × Bool
unfolding open_file
open_read = open_file reading

unfoldable pub open_write : FileCache → Disk → FileCache × Disk × Bool
unfolding open_file
open_write = open_file writing

-- What waits in the stream goes to the end of the file.
unfoldable pub flushed : FileCache → Disk → FileCache × Disk
flushed f disk = (
  record f { pending = [] },
  record disk { files = modify f.filename (λ old. old ++ f.pending) disk.files },
)

unfoldable pub flush : FileCache → Disk → FileCache × Disk
unfolding is_open flushed
flush f disk = if is_open f then flushed f disk else (f, disk)

-- `close`, which the destructor does too.
unfoldable pub close : FileCache → Disk → FileCache × Disk
unfolding is_open flushed
close f disk =
    if is_open f
    then (let (f', disk') = flushed f disk in (record f' { opened = none }, disk'))
    else (f, disk)

-- `file << data`: a stream that is not good takes nothing and has failed; one that is open for reading
-- goes bad.
unfoldable pub insert_text : Str → OpenMode → FileCache → FileCache
insert_text text mode f = if f.failed || f.bad then record f { failed = true } else elim mode [
  | reading ↦ record f { bad = true }
  | writing ↦ record f { pending = f.pending ++ text }
]

unfoldable pub write : Str → FileCache → FileCache × Bool
unfolding insert_text
write text f = elim f.opened [
  | none ↦ (f, false)
  | some mode ↦ let f' = insert_text text mode f in (f', not f'.bad)
]

-- The content of a file.
abbrev pub content_of : Str → Disk → Str
content_of name disk = elim (find name disk.files) [ none ↦ [] | some s ↦ s ]

-- `read_all`: the size, and the text if it could be read. A file that is open for writing fails to give
-- any byte. Without an open file the size is -1, and the
-- allocation throws. The outer `none` is the failed assertion on a stream that has failed.
unfoldable pub read_all : FileCache → Disk → Option (FileCache × Disk × ℤ × Option Str)
unfolding flushed
read_all f disk = if f.failed || f.bad then none else elim f.opened [
  | none ↦ some (record f { failed = true }, disk, negsuc 0, none)
  | some reading ↦
      some (f, disk, pos (length (content_of f.filename disk)), some (content_of f.filename disk))
  | some writing ↦
      let (f', disk') = flushed f disk in
      let size = length (content_of f.filename disk') in
      if size == 0
      then some (f', disk', pos 0, some [])
      else some (record f' { failed = true }, disk', pos size, none)
]

-- `file_size`: 0 for a file that is not there.
unfoldable pub file_size : FileCache → Disk → ℕ
file_size f disk = length (content_of f.filename disk)
