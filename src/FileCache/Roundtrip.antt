-- ===== src/FileCache/Roundtrip.antt =====
-- What core/FileCache.cpp reads back.
use sfproxy.Prelude.{
  ◌≡◌, refl, sym, ap, ◌∙◌, subst, inl, inr, Bool, true, some, List, [], ◌∷◌, ◌++◌, arith,
  if◌then◌else◌, Bool-cases, length, Str, str_eq, str_eq_iff, str_eq_refl, pos,
}
use mathlib.Core.List.{append-nil, append_assoc}
use sfproxy.OrderedMap.{Map, find, insert, modify}
use sfproxy.OrderedMap.Laws.{find-insert, find-modify}
use sfproxy.FileCache.{
  Disk, reading, writing, FileCache, new_file, put, open_stream, open_read, open_write, close,
  insert_text, write, read_all, content_of,
}

pub find-put :
    (k j v : Str) (m : Map Str) → find j (put k v m) ≡ (if str_eq k j then some v else find j m)
unfolding put
find-put k j v m = elim (Bool-cases (str_eq k j)) [
  | inl same ↦
      find-modify k j (λ _. v) (insert k v m)
      ∙ rw same (ground (arith, find-insert k j v m, str_eq_iff k j))
  | inr other ↦
      find-modify k j (λ _. v) (insert k v m)
      ∙ rw other (find-insert k j v m ∙ ground (arith, str_eq_iff k j))
]

-- Texts that are written one after the other.
unfoldable pub write_all : List Str → FileCache → FileCache
unfolding write
write_all [] f = f
write_all (text ∷ texts) f = write_all texts (write text f).0

abbrev pub concat : List Str → Str
concat [] = []
concat (text ∷ texts) = text ++ concat texts

-- A stream that is open for writing and holds back a text.
abbrev pub held : Str → Str → FileCache
held name text = record (new_file name) { opened = some writing; pending = text }

write_all-held :
    (name text : Str) (texts : List Str)
    → write_all texts (held name text) ≡ held name (text ++ concat texts)
unfolding write_all new_file insert_text
write_all-held name text [] = ap (held name) (sym (append-nil text))
write_all-held name text (t ∷ texts) =
    write_all-held name (text ++ t) texts ∙ ap (held name) (append_assoc text t (concat texts))

pub find-flushed :
    (name text : Str) (files : Map Str)
    → find name (modify name (λ old. old ++ text) (put name [] files)) ≡ some text
find-flushed name text files =
    find-modify name name (λ old. old ++ text) (put name [] files)
    ∙ rw (str_eq_refl name, find-put name name [] files) (rw (str_eq_refl name) refl)

open_found :
    (name text : Str) (disk : Disk)
    → find name disk.files ≡ some text
    → open_read (new_file name) disk
      ≡ (record (new_file name) { opened = some reading }, disk, true)
unfolding open_read new_file
open_found name text disk e = rw (e, open_stream) refl

-- The disk after a file was opened for writing, written to, and closed.
abbrev pub rewritten : Str → List Str → Disk → Disk
rewritten name texts disk =
    let (f, disk', opened) = open_write (new_file name) disk in (close (write_all texts f) disk').1

pub opened_writing :
    (name : Str) (disk : Disk)
    → disk.writable name ≡ true
    → open_write (new_file name) disk
      ≡ (held name [], record disk { files = put name [] disk.files }, true)
unfolding open_write new_file
opened_writing name disk may = rw may refl

closed_held :
    (name text : Str) (disk : Disk)
    → (close (held name text) disk).1
      ≡ record disk { files = modify name (λ old. old ++ text) disk.files }
unfolding close new_file
closed_held name text disk = refl

abbrev pub replaced : Str → Str → Disk → Disk
replaced name text disk = record disk {
  files = modify name (λ old. old ++ text) (put name [] disk.files);
}

pub rewritten_lem :
    (name : Str) (texts : List Str) (disk : Disk)
    → disk.writable name ≡ true
    → rewritten name texts disk ≡ replaced name (concat texts) disk
rewritten_lem name texts disk may =
    ap (λ x. (close (write_all texts x.0) x.1).1) (opened_writing name disk may)
    ∙ ap (λ f. (close f (record disk { files = put name [] disk.files })).1)
        (write_all-held name [] texts)
    ∙ closed_held name (concat texts) (record disk { files = put name [] disk.files })

find-replaced :
    (name text j : Str) (disk : Disk)
    → find j (replaced name text disk).files
      ≡ (if str_eq name j then some text else find j disk.files)
find-replaced name text j disk = elim (Bool-cases (str_eq name j)) [
  | inl same ↦ rw same (
      subst (λ k. find k (replaced name text disk).files ≡ some text) ((str_eq_iff name j).0 same)
        (find-flushed name text disk.files))
  | inr other ↦ rw other (
      find-modify name j (λ old. old ++ text) (put name [] disk.files)
      ∙ rw other (find-put name j [] disk.files ∙ rw other refl))
]

content_found :
    (name text : Str) (disk : Disk) → find name disk.files ≡ some text → content_of name disk ≡ text
content_found name text disk e = rw (e, content_of) refl

-- What the opening for reading gives, and what is read then.
abbrev pub Reads : Str → Disk → FileCache × Disk × Bool → Type 0
Reads text disk (f, disk', found) =
    (found ≡ true)
    × (disk' ≡ disk)
    × (read_all f disk' ≡ some (f, disk', pos (length text), some text))

read_found :
    (name text : Str) (disk : Disk)
    → find name disk.files ≡ some text
    → Reads text disk (record (new_file name) { opened = some reading }, disk, true)
unfolding new_file read_all
read_found name text disk e = (
  refl,
  refl,
  ap (λ s. some (record (new_file name) { opened = some reading }, disk, pos (length s), some s))
      (content_found name text disk e),
)

pub open_read-Reads :
    (name text : Str) (disk : Disk)
    → find name disk.files ≡ some text
    → Reads text disk (open_read (new_file name) disk)
open_read-Reads name text disk e =
    subst (Reads text disk) (sym (open_found name text disk e)) (read_found name text disk e)

-- Where the file may be written, what was written to it, in any number of parts, is what `read_all`
-- reads from it after it has been closed, with its length, whatever the file had before; no other file
-- has changed.
pub read_all-write_all :
    (name : Str) (texts : List Str) (disk : Disk) (j : Str)
    → disk.writable name ≡ true
    → let disk' = rewritten name texts disk in
      Reads (concat texts) disk' (open_read (new_file name) disk')
      × (find j disk'.files ≡ (if str_eq name j then some (concat texts) else find j disk.files))
read_all-write_all name texts disk j may =
    subst
      (λ d.
        Reads (concat texts) d (open_read (new_file name) d)
        × (find j d.files ≡ (if str_eq name j then some (concat texts) else find j disk.files)))
      (sym (rewritten_lem name texts disk may))
      (
        open_read-Reads name (concat texts) (replaced name (concat texts) disk)
            (find-flushed name (concat texts) disk.files),
        find-replaced name (concat texts) j disk,
      )
