-- ===== src/Cache/Storage.antt =====
-- `save` and `from_file` of core/RegistryCache.cpp with the file of core/FileCache.cpp.
use sfproxy.Prelude.{ℕ, Bool, true, Option, none, some, [], if◌then◌else◌, ◌>>=◌, Str, pos, eq_ℤ}
use mathlib.Core.Option
use sfproxy.Json.{Rapidjson}
use sfproxy.Cache.{RegistryCache, save_text, from_file}
use sfproxy.FileCache.{
  Disk, FileCache, new_file, open_read, open_write, write, flush, close, read_all,
}

-- What `save` does with the file that it has opened; the destructor closes it.
unfoldable pub save_opened : Str → FileCache × Disk × Bool → Disk
unfolding write flush close
save_opened text (f, disk, opened) =
    if opened
    then (let (f', written) = write text f in
        if written
        then (let (f2, disk2) = flush f' disk in (close f2 disk2).1)
        else (close f' disk).1)
    else (close f disk).1

-- `save`: the answer is true on every path, as std::fstream throws nothing.
unfoldable pub save : ℕ → Str → RegistryCache → Disk → Disk × Bool
unfolding new_file open_write save_text save_opened
save time_0 filename cache disk =
    (save_opened (save_text time_0 cache) (open_write (new_file filename) disk), true)

-- `f.open_read() && f.read_all(content)`: none where this is false. A size that is not 0 counts as true,
-- also where nothing was read. The outer `none` is a failed assertion.
unfoldable pub load_opened : FileCache × Disk × Bool → Option (Option Str)
unfolding read_all
load_opened (f, disk, opened) =
    if opened
    then (do
      (f', disk2, size, content) ← read_all f disk
      some (if eq_ℤ size (pos 0) then none else some (Option.get_or content [])))
    else some none

unfoldable pub load_text : Str → Disk → Option (Option Str)
unfolding new_file open_read load_opened
load_text filename disk = load_opened (open_read (new_file filename) disk)

-- `from_file(filename)`.
unfoldable pub load_file : Rapidjson → ℕ → Str → Disk → RegistryCache → Option RegistryCache
unfolding load_text from_file
load_file J now filename disk cache = do
  content ← load_text filename disk
  from_file J now content cache
