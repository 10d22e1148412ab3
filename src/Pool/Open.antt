-- ===== src/Pool/Open.antt =====
-- The locked part of `open` of core/ClientPool.cpp: the search for an idle client.
use sfproxy.Prelude.{
  ℕ, ◌+◌, ◌≤◌, ◌<◌, ◌≡◌, refl, ◌∙◌, inl, inr, Bool, true, false, Option, none, some, List, [], ◌∷◌,
  arith, ◌==◌, if◌then◌else◌, Bool-cases,
}
use sfproxy.AddressSet.{occ, set_insert, length-set_insert}
use sfproxy.Client.{Client, set_in_using}
use sfproxy.Pool.{Pool, park, lend, reuse, size}
use sfproxy.Pool.Invariant.{IsValid, idle_head, park-IsValid, lend-IsValid}

-- A client that was handed out is lent, connected, and live; without one no idle client is left.
abbrev pub Handed : Pool → Option ℕ → Type 0
Handed q none = q.idle ≡ []
Handed q (some a) = (c : Client) × (q.heap a ≡ some c) × (c.connected ≡ true) × (0 < occ a q.lent)

-- What the search leaves alone: the bounds, and every address without a client. The pool does not
-- grow.
pub record Searched (p q : Pool) : Type 0 where
  pub same_max : q.max_client ≡ p.max_client
  pub same_timeout : q.used_timeout ≡ p.used_timeout
  pub smaller : size q ≤ size p
  pub free_kept : (a : ℕ) → p.heap a ≡ none → q.heap a ≡ none

Searched-trans : {p q r : Pool} → Searched p q → Searched q r → Searched p r
Searched-trans s t = record {
  same_max = t.same_max ∙ s.same_max;
  same_timeout = t.same_timeout ∙ s.same_timeout;
  smaller = omega (arith, s.smaller, t.smaller);
  free_kept = λ a h. t.free_kept a (s.free_kept a h);
}

park-Searched :
    (a : ℕ) (c : Client) (rest : List ℕ) (p : Pool)
    → p.idle ≡ a ∷ rest
    → Searched p (park a c rest p)
unfolding park size
park-Searched a c rest p e = record {
  same_max = refl;
  same_timeout = refl;
  smaller = rw e (omega arith);
  free_kept = λ b h. h;
}

pub size-lend :
    (a : ℕ) (c : Client) (rest : List ℕ) (p : Pool)
    → p.idle ≡ a ∷ rest
    → occ a p.lent ≡ 0
    → size (lend a c rest p) ≡ size p
unfolding lend size
size-lend a c rest p e h = rw e (omega (arith, length-set_insert a p.lent h))

lend-Searched :
    (a : ℕ) (c : Client) (rest : List ℕ) (p : Pool)
    → p.idle ≡ a ∷ rest
    → p.heap a ≡ some c
    → occ a p.lent ≡ 0
    → Searched p (lend a c rest p)
unfolding lend
lend-Searched a c rest p e there h = record {
  same_max = refl;
  same_timeout = refl;
  smaller = omega (arith, size-lend a c rest p e h);
  free_kept = λ b f. elim (Bool-cases (a == b)) [
    | inl own ↦ absurd (ground (arith, there))
    | inr other ↦ rw other f
  ];
}

-- An idle client is not lent.
pub idle_not_lent :
    (p : Pool) (a : ℕ) (rest : List ℕ) → IsValid p → p.idle ≡ a ∷ rest → occ a p.lent ≡ 0
unfolding occ
idle_not_lent p a rest v e =
    let count : occ a p.idle ≡ (if a == a then 1 else 0) + occ a rest = rw e in
    ground (arith, (v a).once, count)

pub occ-set_insert_pos : (a : ℕ) (xs : List ℕ) → 0 < occ a (set_insert a xs)
unfolding occ set_insert
occ-set_insert_pos a [] = ground arith
occ-set_insert_pos a (x ∷ xs) = ground (arith, occ-set_insert_pos a xs)

module _ (a : ℕ) (c : Client) (rest : List ℕ) (p : Pool) (there : p.heap a ≡ some c) where
  pub reuse_up : c.connected ≡ true → reuse (a ∷ rest) p ≡ some (lend a c rest p, some a)
  unfolding reuse
  reuse_up up = rw (there) (pick c.connected up)
    where
      pick :
          (b : Bool)
          → b ≡ true
          → (elim b [
            | true ↦ some (lend a c rest p, some a)
            | false ↦ reuse rest (park a c rest p)
          ])
            ≡ some (lend a c rest p, some a)
      pick true e = refl
      pick false e = cc

  reuse_down : c.connected ≡ false → reuse (a ∷ rest) p ≡ reuse rest (park a c rest p)
  unfolding reuse
  reuse_down down = rw (there) (pick c.connected down)
    where
      pick :
          (b : Bool)
          → b ≡ false
          → (elim b [
            | true ↦ some (lend a c rest p, some a)
            | false ↦ reuse rest (park a c rest p)
          ])
            ≡ reuse rest (park a c rest p)
      pick true e = cc
      pick false e = refl

lend-Handed :
    (a : ℕ) (c : Client) (rest : List ℕ) (p : Pool)
    → c.connected ≡ true
    → Handed (lend a c rest p) (some a)
unfolding lend set_in_using
lend-Handed a c rest p up = (set_in_using true c, ground arith, up, occ-set_insert_pos a p.lent)

-- In a valid pool the search reads no freed client, and leaves a valid pool. If it hands out a
-- client, the client is connected and lent; else no idle client is left.
pub reuse-IsValid :
    (xs : List ℕ) (p : Pool)
    → p.idle ≡ xs
    → IsValid p
    → (q : Pool) × (o : Option ℕ) × (reuse xs p ≡ some (q, o))
      × IsValid q
      × Handed q o
      × Searched p q
unfolding reuse lend park
reuse-IsValid [] p e v = (
  p,
  none,
  refl,
  v,
  e,
  record { same_max = refl; same_timeout = refl; smaller = omega arith; free_kept = λ a h. h },
)
reuse-IsValid (a ∷ rest) p e v =
    let (c, there, clear, event) = idle_head p a rest v e in
    elim (Bool-cases c.connected) [
      | inl up ↦ (
        lend a c rest p,
        some a,
        reuse_up a c rest p there up,
        lend-IsValid p a c rest v e clear event,
        lend-Handed a c rest p up,
        lend-Searched a c rest p e there (idle_not_lent p a rest v e),
      )
      | inr down ↦
          let (q, o, found, w, handed, same) =
            reuse-IsValid rest (park a c rest p) refl (park-IsValid p a c rest v e) in
          (
            q,
            o,
            reuse_down a c rest p there down ∙ found,
            w,
            handed,
            Searched-trans (park-Searched a c rest p e) same,
          )
    ]
