-- ===== src/Cache/Tests.antt =====
-- core/RegistryCache.cpp at concrete caches.
use sfproxy.Prelude.{
  ℕ, ◌≡◌, refl, true, some, [], ◌∷◌, ◌++◌, if◌then◌else◌, Str, codes, str_eq, pos, arith, All,
}
use sfproxy.OrderedMap.{find, modify}
use sfproxy.Registry.{Registry, equals}
use sfproxy.Cache.{
  RegistryCache, all_instances, add, collect, remove_all, remove_overdue, replace, exists, get,
}
use sfproxy.Cache.Bucket.{IsBucket}
use sfproxy.Cache.Invariant.{IsValid}
use sfproxy.Cache.Calls.{replaces, step, step-IsValid}
use sfproxy.FileCache.{Disk}
use sfproxy.Registry.Reader.{layout_reader, layout_reader-ReadsItems}
use sfproxy.Cache.Storage.{save, load_file}
use sfproxy.Cache.Reload.{reloaded}
use sfproxy.Cache.Calls.{removes_overdue}
use sfproxy.Cache.Refinement.{services, run, spec_run, run-spec_run}
use sfproxy.Cache.Restart.{IsPlainRegistry, load_file-save}
use sfproxy.Cache.Lookup.{get-replace}
use sfproxy.Cache.Overdue.{purge, remove_overdue-purge}
use sfproxy.Cache.Race.{Forgets, remove_overdue_race}

abbrev search : Str → ℕ → Registry
search host mtime = record {
  name = codes "/soa/search";
  host = host;
  port = pos 9009;
  ctime = 1000;
  mtime = mtime;
  ephemeral = codes "e";
  json = [];
}

abbrev old_a : Registry
old_a = search (codes "a") 10

abbrev new_a : Registry
new_a = search (codes "a") 500

abbrev old_b : Registry
old_b = search (codes "b") 400

abbrev two : RegistryCache
two = (codes "/soa/search", old_a ∷ old_b ∷ []) ∷ []

two-IsValid : IsValid two
unfolding equals str_eq
two-IsValid = record {
  sorted = (tt, tt);
  buckets = (
    record {
      complete = ((refl, refl, refl, refl), ((refl, refl, refl, refl), tt));
      distinct = ((refl, tt), (tt, tt));
    },
    tt,
  );
}

IsBucket-new : IsBucket (codes "/soa/search") (new_a ∷ [])
IsBucket-new = record { complete = ((refl, refl, refl, refl), tt); distinct = (tt, tt) }

step-IsValid_example : IsValid (step (replaces (codes "/soa/search") (new_a ∷ [])) two)
step-IsValid_example =
    step-IsValid (replaces (codes "/soa/search") (new_a ∷ [])) two IsBucket-new two-IsValid

added : get (codes "/soa/search") (add new_a two) ≡ some (old_b ∷ new_a ∷ [])
unfolding get add find modify str_eq equals
added = refl

get-replace_example : get (codes "/soa/search") (replace (codes "/soa/search") (new_a ∷ []) two) ≡ (
    if str_eq (codes "/soa/search") (codes "/soa/search")
    then (if exists (codes "/soa/search") two then some [] else some (new_a ∷ []))
    else get (codes "/soa/search") two)
get-replace_example = get-replace (codes "/soa/search") (codes "/soa/search") (new_a ∷ []) two

remove_overdue-purge_example : remove_overdue 100 two ≡ purge 100 two
remove_overdue-purge_example = remove_overdue-purge 100 two two-IsValid

scan_two : collect 100 two ≡ [] ++ (old_a ∷ [])
unfolding collect
scan_two = refl

same_endpoint : equals old_a new_a ≡ true
unfolding equals str_eq
same_endpoint = refl

remove_overdue_race_example : Forgets new_a (remove_all (collect 100 two) (add new_a two))
remove_overdue_race_example =
    remove_overdue_race 100 two old_a new_a [] [] two-IsValid scan_two same_endpoint

-- Nothing on the disk, and one name that may be written.
abbrev empty_disk : Disk
empty_disk = record { files = []; writable = λ name. str_eq name (codes "/tmp/frproxy.cache") }

two-plain : All IsPlainRegistry (all_instances two)
unfolding all_instances
two-plain = ((omega arith, omega arith, omega arith), ((omega arith, omega arith, omega arith), tt))

may_write : empty_disk.writable (codes "/tmp/frproxy.cache") ≡ true
unfolding str_eq
may_write = refl

load_file-save_example :
    let disk = (save 2000 (codes "/tmp/frproxy.cache") two empty_disk).0 in
    (q : RegistryCache) × (load_file layout_reader 9 (codes "/tmp/frproxy.cache") disk [] ≡ some q)
    × (get (codes "/soa/search") q ≡ reloaded 9 (get (codes "/soa/search") two))
load_file-save_example =
    load_file-save layout_reader 2000 9 (codes "/tmp/frproxy.cache") (codes "/soa/search") two
      empty_disk layout_reader-ReadsItems two-IsValid two-plain may_write

run-spec_run_example :
    services (run (removes_overdue 100 ∷ replaces (codes "/soa/search") (new_a ∷ []) ∷ []) two)
    ≡ spec_run
        (removes_overdue 100 ∷ replaces (codes "/soa/search") (new_a ∷ []) ∷ [])
        (services two)
run-spec_run_example =
    run-spec_run (removes_overdue 100 ∷ replaces (codes "/soa/search") (new_a ∷ []) ∷ []) two
      (tt, (IsBucket-new, tt)) two-IsValid
