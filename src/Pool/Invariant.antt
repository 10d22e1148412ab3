-- ===== src/Pool/Invariant.antt =====
-- Who holds a client of core/ClientPool.cpp: the place of each address.
use sfproxy.Prelude.{
  ℕ, zero, suc, ◌+◌, ◌≤◌, ◌<◌, ◌≡◌, refl, ◌∙◌, subst, inl, inr, true, Option, none, some, List, ◌∷◌,
  arith, ◌==◌, if◌then◌else◌, Bool-cases, pos,
}
use sfproxy.AddressSet.{set_insert, occ, occ_snoc, occ-set_insert, occ-set_insert_ne}
use sfproxy.Client.{Client, new_client, set_in_using}
use sfproxy.Pool.{Pool, update, park, lend, create, new_pool}

-- In use by one thread; in use by none; not freed.
abbrev pub IsLent : Option Client → Type 0
IsLent none = ⊥
IsLent (some c) = (c.using_counter ≡ pos 1) × (c.has_event ≡ true)

abbrev pub IsIdle : Option Client → Type 0
IsIdle none = ⊥
IsIdle (some c) = (c.using_counter ≡ pos 0) × (c.has_event ≡ true)

abbrev pub IsLive : Option Client → Type 0
IsLive none = ⊥
IsLive (some c) = Unit

-- An address stands in one of the three places at most, once, and its client is as the place says.
pub record IsPlaced (p : Pool) (a : ℕ) : Type 0 where
  pub once : occ a p.lent + occ a p.idle + occ a p.to_destrory ≤ 1
  pub lent_one : 0 < occ a p.lent → IsLent (p.heap a)
  pub idle_one : 0 < occ a p.idle → IsIdle (p.heap a)
  pub dying_one : 0 < occ a p.to_destrory → IsLive (p.heap a)

abbrev pub IsValid : Pool → Type 0
IsValid p = (a : ℕ) → IsPlaced p a

pub new_pool-IsValid : IsValid new_pool
unfolding new_pool occ
new_pool-IsValid a = record {
  once = omega arith;
  lent_one = λ h. absurd (omega arith);
  idle_one = λ h. absurd (omega arith);
  dying_one = λ h. absurd (omega arith);
}

pub idle→live : (o : Option Client) → IsIdle o → IsLive o
idle→live none h = elim h [ ]
idle→live (some c) h = tt

pub lent→live : (o : Option Client) → IsLent o → IsLive o
lent→live none h = elim h [ ]
lent→live (some c) h = tt

pub IsLent-inv :
    (o : Option Client)
    → IsLent o
    → (c : Client) × (o ≡ some c) × (c.using_counter ≡ pos 1) × (c.has_event ≡ true)
IsLent-inv none h = elim h [ ]
IsLent-inv (some c) h = (c, refl, h.0, h.1)

IsIdle-inv :
    (o : Option Client)
    → IsIdle o
    → (c : Client) × (o ≡ some c) × (c.using_counter ≡ pos 0) × (c.has_event ≡ true)
IsIdle-inv none h = elim h [ ]
IsIdle-inv (some c) h = (c, refl, h.0, h.1)

occ_head : (a : ℕ) (rest : List ℕ) → 0 < occ a (a ∷ rest)
unfolding occ
occ_head a rest = ground arith

-- The first idle client can be read.
pub idle_head :
    (p : Pool) (a : ℕ) (rest : List ℕ)
    → IsValid p
    → p.idle ≡ a ∷ rest
    → (c : Client) × (p.heap a ≡ some c) × (c.using_counter ≡ pos 0) × (c.has_event ≡ true)
idle_head p a rest v e = IsIdle-inv (p.heap a) ((v a).idle_one (rw e (occ_head a rest)))

pub park-IsValid :
    (p : Pool) (a : ℕ) (c : Client) (rest : List ℕ)
    → IsValid p
    → p.idle ≡ a ∷ rest
    → IsValid (park a c rest p)
unfolding park occ
park-IsValid p a c rest v e b =
    let placed = v b in
    let split : occ b p.idle ≡ (if a == b then 1 else 0) + occ b rest = rw e in
    record {
      once = ground (arith, placed, split, occ_snoc b a p.to_destrory);
      lent_one = placed.lent_one;
      idle_one = λ h. placed.idle_one (omega (arith, split));
      dying_one = λ h. elim (Bool-cases (a == b)) [
        | inl own ↦ idle→live (p.heap b) (placed.idle_one (ground (arith, split)))
        | inr other ↦ placed.dying_one (ground (arith, occ_snoc b a p.to_destrory))
      ];
    }

-- A client that goes from nowhere or from the idle ones to the lent ones.
lent_after :
    (p : Pool) (a : ℕ) (c : Client) (rest : List ℕ) (b : ℕ)
    → IsPlaced p b
    → occ b rest ≤ occ b p.idle
    → (a ≡ b → (occ b p.lent ≡ 0) × (occ b rest ≡ 0) × (occ b p.to_destrory ≡ 0))
    → IsLent (some c)
    → IsPlaced
        (record p { lent = set_insert a p.lent; idle = rest; heap = update p.heap a (some c) })
        b
lent_after p a c rest b placed le own lent = elim (Bool-cases (a == b)) [
  | inl e ↦
      let (l0, r0, d0) = own (ground arith) in
      let here : a ≡ b = ground arith in
      let l1 : occ b (set_insert a p.lent) ≡ 1 =
        occ-set_insert b a p.lent (rw here l0) ∙ ground arith in
      record {
        once = omega arith;
        lent_one = λ _. rw e lent;
        idle_one = λ h. absurd (omega arith);
        dying_one = λ h. absurd (omega arith);
      }
  | inr e ↦
      let same : occ b (set_insert a p.lent) ≡ occ b p.lent = occ-set_insert_ne b a p.lent e in
      record {
        once = omega arith;
        lent_one = λ h. rw e (placed.lent_one (omega arith));
        idle_one = λ h. rw e (placed.idle_one (omega arith));
        dying_one = λ h. rw e (placed.dying_one h);
      }
]

pub lend-IsValid :
    (p : Pool) (a : ℕ) (c : Client) (rest : List ℕ)
    → IsValid p
    → p.idle ≡ a ∷ rest
    → c.using_counter ≡ pos 0
    → c.has_event ≡ true
    → IsValid (lend a c rest p)
unfolding lend occ set_in_using
lend-IsValid p a c rest v e clear event b =
    let split : occ b p.idle ≡ (if a == b then 1 else 0) + occ b rest = rw e in
    lent_after p a (set_in_using true c) rest b (v b) (ground (arith, split))
      (λ h. ground (arith, split, (v b).once)) (rw clear refl, event)

zero_of : (n : ℕ) → (0 < n → ⊥) → n ≡ 0
zero_of zero h = refl
zero_of (suc n) h = absurd (h (omega arith))

-- A place that holds no client is in no list.
pub unplaced :
    (p : Pool) (a : ℕ)
    → IsPlaced p a
    → p.heap a ≡ none
    → (occ a p.lent ≡ 0) × (occ a p.idle ≡ 0) × (occ a p.to_destrory ≡ 0)
unplaced p a v h = (
  zero_of _ (λ k. subst IsLent h (v.lent_one k)),
  zero_of _ (λ k. subst IsIdle h (v.idle_one k)),
  zero_of _ (λ k. subst IsLive h (v.dying_one k)),
)

-- `new` gives an address at which no client lives.
pub create-IsValid : (p : Pool) (a : ℕ) → IsValid p → p.heap a ≡ none → IsValid (create a p)
unfolding create set_in_using new_client
create-IsValid p a v h b =
    let placed = v b in
    lent_after (record p { last_id = p.last_id + 1 }) a _ p.idle b
      (record {
        once = placed.once;
        lent_one = placed.lent_one;
        idle_one = placed.idle_one;
        dying_one = placed.dying_one;
      })
      (omega arith) (λ e. unplaced p b placed (rw (← e) h)) (refl, refl)

-- An address that an operation does not touch stays placed.
pub IsPlaced-same :
    (p q : Pool) (b : ℕ)
    → occ b q.lent ≡ occ b p.lent
    → occ b q.idle ≡ occ b p.idle
    → occ b q.to_destrory ≡ occ b p.to_destrory
    → q.heap b ≡ p.heap b
    → IsPlaced p b
    → IsPlaced q b
IsPlaced-same p q b l i d h v = record {
  once = omega arith;
  lent_one = λ k. rw h (v.lent_one (omega arith));
  idle_one = λ k. rw h (v.idle_one (omega arith));
  dying_one = λ k. rw h (v.dying_one (omega arith));
}
