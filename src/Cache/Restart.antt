-- ===== src/Cache/Restart.antt =====
-- A run of the proxy that saves its cache, and the next one that loads it: core/RegistryCache.cpp with
-- core/FileCache.cpp.
use sfproxy.Prelude.{
  ℕ, ◌<◌, ◌≡◌, refl, ap, ◌∙◌, Bool, true, false, some, List, [], ◌∷◌, ◌++◌, map, arith, length, All,
  Str, str_eq_refl, pos, eq_ℤ,
}
use mathlib.Core.List.{append-nil}
use sfproxy.Json.{Rapidjson}
use sfproxy.OrderedMap.{find, modify}
use sfproxy.OrderedMap.Laws.{find-modify}
use sfproxy.Registry.{Registry, unserialize}
use sfproxy.Registry.Layout.{
  IsPlain, IsInt32, IsPlainItem, ReadsItems, item_of, registry_of, unserialize-items_text,
  serialize_all-items_text,
}
use sfproxy.FileCache.{Disk, FileCache, new_file, open_read, write, flush, close, put}
use sfproxy.FileCache.Roundtrip.{Reads, open_read-Reads, find-flushed, opened_writing, held}
use sfproxy.Cache.{RegistryCache, get, all_instances, save_text, from_file}
use sfproxy.Cache.Storage.{save, save_opened, load_opened, load_text, load_file}
use sfproxy.Cache.Invariant.{IsValid}
use sfproxy.Cache.Reload.{reloaded, add_loaded-loaded, reload_empty}

-- The instances can be written as JSON as they are.
abbrev pub IsPlainRegistry : Registry → Type 0
IsPlainRegistry r = IsPlain r.name × IsPlain r.host × IsInt32 r.port

All-items :
    (t : ℕ) (v : List Registry) → All IsPlainRegistry v → All IsPlainItem (map (item_of t) v)
All-items t [] h = tt
All-items t (r ∷ v) (h, hs) = (h, All-items t v hs)

-- What `save` leaves in a file that it may write.
abbrev twice : Str → Str → Disk → Disk
twice name text disk = record disk {
  files = modify name (λ old. old ++ []) (modify name (λ old. old ++ text) disk.files);
}

saved_held :
    (name text : Str) (disk : Disk)
    → save_opened text (held name [], disk, true) ≡ twice name text disk
unfolding save_opened new_file write flush close
saved_held name text disk = refl

find-twice :
    (name text : Str) (disk : Disk)
    → find name (twice name text (record disk { files = put name [] disk.files })).files ≡ some text
find-twice name text disk =
    find-modify name name (λ old. old ++ [])
      (modify name (λ old. old ++ text) (put name [] disk.files))
    ∙ rw (str_eq_refl name, find-flushed name text disk.files) (ap some (append-nil text))

pub find-save :
    (t : ℕ) (name : Str) (cache : RegistryCache) (disk : Disk)
    → disk.writable name ≡ true
    → find name (save t name cache disk).0.files ≡ some (save_text t cache)
unfolding save
find-save t name cache disk may =
    ap (λ x. find name (save_opened (save_text t cache) x).files) (opened_writing name disk may)
    ∙ ap (λ d. find name d.files)
        (saved_held name (save_text t cache) (record disk { files = put name [] disk.files }))
    ∙ find-twice name (save_text t cache) disk

not_empty : (n : ℕ) → 0 < n → eq_ℤ (pos n) (pos 0) ≡ false
not_empty n h = ground arith

load-Reads :
    (text : Str) (disk : Disk) (x : FileCache × Disk × Bool)
    → 0 < length text
    → Reads text disk x
    → load_opened x ≡ some (some text)
unfolding load_opened
load-Reads text disk (f, disk', found) long (e, same, r) =
    rw (e, r) (rw (not_empty (length text) long) refl)

length-save_text : (t : ℕ) (cache : RegistryCache) → 0 < length (save_text t cache)
unfolding save_text
length-save_text t cache = rw (serialize_all-items_text t (all_instances cache)) (omega arith)

load_text-save :
    (t : ℕ) (name : Str) (cache : RegistryCache) (disk : Disk)
    → disk.writable name ≡ true
    → load_text name (save t name cache disk).0 ≡ some (some (save_text t cache))
unfolding load_text
load_text-save t name cache disk may =
    load-Reads (save_text t cache) (save t name cache disk).0
      (open_read (new_file name) (save t name cache disk).0) (length-save_text t cache)
      (open_read-Reads name (save_text t cache) (save t name cache disk).0
        (find-save t name cache disk may))

-- Where the file may be written, rapidjson reads the layout that the proxy writes, and the instances
-- have names and hosts that need no escape and ports within an `int`: a valid cache that is saved and
-- then loaded into an empty one comes back. Each service has the same endpoints in the same order, with
-- the times of the loading and the mark of the file in place of what the text does not hold; only a
-- service without instances is gone.
pub load_file-save :
    (J : Rapidjson) (t now : ℕ) (name j : Str) (cache : RegistryCache) (disk : Disk)
    → ReadsItems J
    → IsValid cache
    → All IsPlainRegistry (all_instances cache)
    → disk.writable name ≡ true
    → (q : RegistryCache) × (load_file J now name (save t name cache disk).0 [] ≡ some q)
      × (get j q ≡ reloaded now (get j cache))
unfolding load_file from_file save_text get
load_file-save J t now name j cache disk reads valid plain may =
    let v = all_instances cache in
    let text : unserialize J now (save_text t cache)
        ≡ some (map (registry_of now) (map (item_of t) v)) =
      ap (unserialize J now) (serialize_all-items_text t v)
      ∙ unserialize-items_text J now (map (item_of t) v) reads (All-items t v plain) in
    (
      _,
      rw (load_text-save t name cache disk may) (rw text refl),
      ap (get j) (add_loaded-loaded t now v []) ∙ reload_empty now cache j valid,
    )
