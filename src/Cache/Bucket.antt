-- ===== src/Cache/Bucket.antt =====
-- Lists of instances of one service: endpoints that stand once.
use sfproxy.Prelude.{
  ◌≡◌, refl, ◌↔◌, Bool, true, false, not, List, [], ◌∷◌, ◌++◌, arith, keep_if, All, All-append, Str,
  str_eq_iff, ℤ, pos, negsuc, eq_ℤ,
}
use sfproxy.Registry.{Registry, equals, is_empty}
use sfproxy.Cache.{erase_first, renew}

pub eq_ℤ_iff : (a b : ℤ) → (eq_ℤ a b ≡ true) ↔ (a ≡ b)
eq_ℤ_iff (pos a) (pos b) = ground arith
eq_ℤ_iff (pos a) (negsuc b) = ground arith
eq_ℤ_iff (negsuc a) (pos b) = ground arith
eq_ℤ_iff (negsuc a) (negsuc b) = ground arith

-- Two instances are equal exactly when service, host and port agree.
pub equals_iff :
    (a b : Registry)
    → (equals a b ≡ true) ↔ ((a.name ≡ b.name) × (a.host ≡ b.host) × (a.port ≡ b.port))
unfolding equals
equals_iff a b =
    ground (arith, str_eq_iff a.name b.name, str_eq_iff a.host b.host, eq_ℤ_iff a.port b.port)

pub equals_refl : (a : Registry) → equals a a ≡ true
equals_refl a = (equals_iff a a).1 (refl, refl, refl)

pub equals_sym : (a b : Registry) → equals a b ≡ equals b a
equals_sym a b = ground (arith, equals_iff a b, equals_iff b a)

pub equals_trans : (a b c : Registry) → equals a b ≡ true → equals b c ≡ true → equals a c ≡ true
equals_trans a b c h k = ground (arith, equals_iff a b, equals_iff b c, equals_iff a c)

-- No instance of the list has the endpoint of `r`.
abbrev pub Lacks : Registry → List Registry → Type 0
Lacks r = All (λ s. equals s r ≡ false)

abbrev pub Distinct : List Registry → Type 0
Distinct [] = Unit
Distinct (r ∷ rs) = Lacks r rs × Distinct rs

-- What `add` has checked of each instance of a service.
abbrev pub IsComplete : Str → Registry → Type 0
IsComplete name r =
    (r.name ≡ name)
    × (is_empty r.name ≡ false)
    × (is_empty r.host ≡ false)
    × (is_empty r.ephemeral ≡ false)

pub record IsBucket (name : Str) (v : List Registry) : Type 0 where
  pub complete : All (IsComplete name) v
  pub distinct : Distinct v

pub All-erase_first {ℓ} :
    (P : Registry → Type ℓ) (p : Registry → Bool) (v : List Registry)
    → All P v
    → All P (erase_first p v)
unfolding erase_first
All-erase_first P p [] h = tt
All-erase_first P p (r ∷ rs) h = ground (arith, All-erase_first P p rs h.1)

pub erase_first-Distinct :
    (p : Registry → Bool) (v : List Registry) → Distinct v → Distinct (erase_first p v)
unfolding erase_first
erase_first-Distinct p [] d = tt
erase_first-Distinct p (r ∷ rs) d = ground (
  arith,
  erase_first-Distinct p rs d.1,
  All-erase_first (λ (s : Registry). equals s r ≡ false) p rs d.0,
)

pub Lacks-equals : (a b : Registry) (v : List Registry) → equals a b ≡ true → Lacks a v → Lacks b v
Lacks-equals a b [] h l = tt
Lacks-equals a b (r ∷ rs) h l =
    (ground (arith, equals_trans r b a, equals_sym a b), Lacks-equals a b rs h l.1)

-- Of distinct endpoints the first match is the only one.
pub erase_first-Lacks :
    (reg : Registry) (v : List Registry)
    → Distinct v
    → Lacks reg (erase_first (λ r. equals r reg) v)
unfolding erase_first
erase_first-Lacks reg [] d = tt
erase_first-Lacks reg (r ∷ rs) d =
    ground (arith, erase_first-Lacks reg rs d.1, Lacks-equals r reg rs)

pub Distinct-snoc :
    (r : Registry) (v : List Registry) → Lacks r v → Distinct v → Distinct (v ++ (r ∷ []))
Distinct-snoc r [] l d = (tt, tt)
Distinct-snoc r (s ∷ v) l d =
    (All-append _ v (r ∷ []) d.0 (ground (arith, equals_sym r s), tt), Distinct-snoc r v l.1 d.1)

pub renew-IsBucket :
    (reg : Registry) (name : Str) (v : List Registry)
    → IsComplete name reg
    → IsBucket name v
    → IsBucket name (renew reg v)
unfolding renew
renew-IsBucket reg name v c b = record {
  complete =
      All-append _ (erase_first (λ r. equals r reg) v) (reg ∷ [])
        (All-erase_first (IsComplete name) (λ r. equals r reg) v b.complete) (c, tt);
  distinct =
      Distinct-snoc reg _ (erase_first-Lacks reg v b.distinct)
        (erase_first-Distinct (λ r. equals r reg) v b.distinct);
}

keep_if-Lacks :
    (reg : Registry) (v : List Registry) → Lacks reg v → keep_if (λ r. not (equals r reg)) v ≡ v
keep_if-Lacks reg [] l = refl
keep_if-Lacks reg (r ∷ rs) l = ground (arith, keep_if-Lacks reg rs l.1)

-- Of distinct endpoints, to erase the first match is to drop every match.
pub erase_first-keep_if :
    (reg : Registry) (v : List Registry)
    → Distinct v
    → erase_first (λ r. equals r reg) v ≡ keep_if (λ r. not (equals r reg)) v
unfolding erase_first
erase_first-keep_if reg [] d = refl
erase_first-keep_if reg (r ∷ rs) d =
    ground (arith, erase_first-keep_if reg rs d.1, Lacks-equals r reg rs, keep_if-Lacks reg rs)
