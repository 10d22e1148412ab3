-- ===== src/Cache/Rebuild.antt =====
-- A service of core/RegistryCache.cpp that is removed and added again instance by instance.
use sfproxy.Prelude.{
  ◌≡◌, refl, sym, ap, ◌∙◌, subst, inl, inr, false, none, some, List, [], ◌∷◌, ◌++◌, arith,
  if◌then◌else◌, Bool-cases, All, All-append, Str, str_eq, str_eq_iff, str_eq_refl,
}
use mathlib.Core.Option
use mathlib.Core.List.{append-nil, append_assoc}
use sfproxy.OrderedMap.Laws.{find-erase}
use sfproxy.Registry.{Registry, equals}
use sfproxy.Cache.{RegistryCache, add, get, remove_name}
use sfproxy.Cache.Bucket.{IsComplete, Lacks, Distinct, equals_sym}
use sfproxy.Cache.Invariant.{IsValid, add-IsValid, erase-IsValid}
use sfproxy.Cache.Lookup.{is_incomplete, others, get-add}

-- Instances that are added one after the other.
unfoldable pub add_all : List Registry → RegistryCache → RegistryCache
add_all [] cache = cache
add_all (r ∷ rs) cache = add_all rs (add r cache)

others-Lacks : (r : Registry) (v : List Registry) → Lacks r v → others r v ≡ v
others-Lacks r [] h = refl
others-Lacks r (s ∷ v) h = ground (arith, others-Lacks r v h.1)

-- All of the list have an endpoint that the other list lacks.
abbrev Apart : List Registry → List Registry → Type 0
Apart rs v = All (λ r. Lacks r v) rs

Apart-nil : (rs : List Registry) → Apart rs []
Apart-nil [] = tt
Apart-nil (r ∷ rs) = (tt, Apart-nil rs)

Apart-snoc :
    (r : Registry) (rs v : List Registry) → Lacks r rs → Apart rs v → Apart rs (v ++ (r ∷ []))
Apart-snoc r [] v d h = tt
Apart-snoc r (s ∷ rs) v d h = (
  All-append (λ t. equals t s ≡ false) v (r ∷ []) h.0 (equals_sym r s ∙ d.0, tt),
  Apart-snoc r rs v d.1 h.1,
)

complete_one : (name : Str) (r : Registry) → IsComplete name r → is_incomplete r ≡ false
complete_one name r c = ground (arith, c)

own :
    (r : Registry) (cache : RegistryCache) (v : List Registry)
    → IsValid cache
    → is_incomplete r ≡ false
    → Option.get_or (get r.name cache) [] ≡ v
    → Lacks r v
    → get r.name (add r cache) ≡ some (v ++ (r ∷ []))
own r cache v h c e apart =
    get-add r cache r.name h
    ∙ rw (c, str_eq_refl r.name, e) (ap (λ l. some (l ++ (r ∷ []))) (others-Lacks r v apart))

add_one :
    (name : Str) (r : Registry) (cache : RegistryCache) (v : List Registry)
    → IsValid cache
    → IsComplete name r
    → Option.get_or (get name cache) [] ≡ v
    → Lacks r v
    → get name (add r cache) ≡ some (v ++ (r ∷ []))
add_one name r cache v h c e apart =
    subst (λ n. get n (add r cache) ≡ some (v ++ (r ∷ []))) c.0
      (own r cache v h (complete_one name r c)
        (subst (λ n. Option.get_or (get n cache) [] ≡ v) (sym c.0) e) apart)

add_all-get :
    (name : Str) (rs : List Registry) (cache : RegistryCache) (v : List Registry)
    → IsValid cache
    → All (IsComplete name) rs
    → Distinct rs
    → Apart rs v
    → get name cache ≡ some v
    → get name (add_all rs cache) ≡ some (v ++ rs)
unfolding add_all
add_all-get name [] cache v h c d a e = e ∙ ap some (sym (append-nil v))
add_all-get name (r ∷ rs) cache v h c d a e =
    add_all-get name rs (add r cache) (v ++ (r ∷ [])) (add-IsValid r cache h) c.1 d.1
      (Apart-snoc r rs v d.0 a.1) (add_one name r cache v h c.0 (rw e refl) a.0)
    ∙ ap some (append_assoc v (r ∷ []) rs)

pub add_all_other :
    (name j : Str) (rs : List Registry) (cache : RegistryCache)
    → IsValid cache
    → All (IsComplete name) rs
    → str_eq name j ≡ false
    → get j (add_all rs cache) ≡ get j cache
unfolding add_all
add_all_other name j [] cache h c n = refl
add_all_other name j (r ∷ rs) cache h c n =
    add_all_other name j rs (add r cache) (add-IsValid r cache h) c.1 n
    ∙ get-add r cache j h
    ∙ rw (complete_one name r c.0, c.0.0, n) refl

-- The service is removed from a valid cache and its instances are added, of which there is at least
-- one, all complete, and no two with one endpoint: then the service has exactly these, in order, and
-- no other service has changed.
pub add_all_rebuilds :
    (name j : Str) (r : Registry) (rs : List Registry) (cache : RegistryCache)
    → IsValid cache
    → All (IsComplete name) (r ∷ rs)
    → Distinct (r ∷ rs)
    → get j (add_all (r ∷ rs) (remove_name name cache))
      ≡ (if str_eq name j then some (r ∷ rs) else get j cache)
unfolding remove_name get add_all
add_all_rebuilds name j r rs cache h c d =
    let gone : IsValid (remove_name name cache) = erase-IsValid name cache h in
    let missing : get name (remove_name name cache) ≡ none =
      find-erase name name cache ∙ rw (str_eq_refl name) refl in
    elim (Bool-cases (str_eq name j)) [
      | inl same ↦ rw same (
          subst (λ k. get k (add_all (r ∷ rs) (remove_name name cache)) ≡ some (r ∷ rs))
            ((str_eq_iff name j).0 same)
            (add_all-get name rs (add r (remove_name name cache)) (r ∷ []) (add-IsValid r _ gone)
              c.1 d.1 (Apart-snoc r rs [] d.0 (Apart-nil rs))
              (add_one name r (remove_name name cache) [] gone c.0 (rw missing refl) tt)))
      | inr other ↦ rw other (
          add_all_other name j (r ∷ rs) (remove_name name cache) gone c other
          ∙ find-erase name j cache
          ∙ rw other refl)
    ]
