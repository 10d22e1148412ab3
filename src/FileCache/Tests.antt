-- ===== src/FileCache/Tests.antt =====
-- core/FileCache.cpp at concrete files.
use sfproxy.Prelude.{
  ◌≡◌, refl, true, false, none, some, [], ◌∷◌, if◌then◌else◌, codes, str_eq, negsuc,
}
use sfproxy.OrderedMap.{find}
use sfproxy.FileCache.{Disk, new_file, open_read, write, read_all}
use sfproxy.FileCache.Roundtrip.{rewritten, concat, Reads, read_all-write_all}

-- One file with a text, and all names may be written.
abbrev one_file : Disk
one_file = record { files = (codes "a", codes "old") ∷ []; writable = λ _. true }

read_all-write_all_example :
    let disk' = rewritten (codes "a") (codes "x" ∷ codes "yz" ∷ []) one_file in
    Reads (concat (codes "x" ∷ codes "yz" ∷ [])) disk' (open_read (new_file (codes "a")) disk')
    × (find (codes "b") disk'.files ≡ (
        if str_eq (codes "a") (codes "b")
        then some (concat (codes "x" ∷ codes "yz" ∷ []))
        else find (codes "b") one_file.files))
read_all-write_all_example =
    read_all-write_all (codes "a") (codes "x" ∷ codes "yz" ∷ []) one_file (codes "b") refl

-- A file that is open for reading takes no text.
read_only : (write (codes "x") (open_read (new_file (codes "a")) one_file).0).1 ≡ false
unfolding write open_read new_file find str_eq
read_only = refl

-- Without an open file the size is -1.
not_open :
    read_all (new_file (codes "a")) one_file
    ≡ some (record (new_file (codes "a")) { failed = true }, one_file, negsuc 0, none)
unfolding read_all new_file
not_open = refl
