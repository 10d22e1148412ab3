-- ===== src/Pool/Counts.antt =====
-- How the calls of core/ClientPool.cpp change the set of lent clients.
use sfproxy.Prelude.{
  ℕ, ◌≤◌, ◌<◌, ◌≡◌, refl, ap, ◌∙◌, subst, inl, inr, Bool, true, false, ◌&&◌, Option, none, some,
  List, [], ◌∷◌, arith, ◌==◌, ◌>>=◌, ==_iff, Bool-cases, length, pos, ltb_ℤ, eq_ℤ,
}
use sfproxy.AddressSet.{set_erase, occ, occ-set_erase, length-set_insert}
use sfproxy.Client.{Client}
use sfproxy.StateBag.{StateBag}
use sfproxy.Pool.{
  Pool, Heap, update, destroy_list, doomed, reuse, create, size, open_locked, close,
  destroy_clients,
}
use sfproxy.Pool.Invariant.{IsValid, IsLent-inv, IsLent, IsIdle, IsLive, unplaced, create-IsValid}
use sfproxy.Pool.Open.{Handed, Searched, reuse-IsValid}
use sfproxy.Pool.Acquire.{create_granted, create-IsBounded, open_creates, open_keeps}
use sfproxy.Pool.Close.{returned, dropped, close_lem}
use sfproxy.Pool.Reset.{destroy_clients-IsValid}
use sfproxy.Pool.History.{IsGood, IsBounded-after, closed-IsGood, closed_smaller, destroyed-IsGood}
use sfproxy.Prelude.{Post, Post-bind, Post-bind_any, Post-known}
use sfproxy.Pool.Grows.{
  Lends, IsSmall, Grows, occ-set_insert-le, HasRoom, reuse-Lends, reuse-lent, full_false, room_left,
}

-- What `open` gives while the pool has room: a client that is lent.
abbrev pub Taken : Pool → Pool × Option ℕ → Type 0
Taken p (q, none) = ⊥
Taken p (q, some a) = IsGood q × (0 < occ a q.lent) × Grows p (some a) q

create-Grows :
    (fresh : ℕ) (p0 p : Pool)
    → Lends p0 none p
    → p.lent ≡ p0.lent
    → p.max_client ≡ p0.max_client
    → p.idle ≡ []
    → occ fresh p.lent ≡ 0
    → Grows p0 (some fresh) (create fresh p)
unfolding create
create-Grows fresh p0 p h l m e absent = (
  (λ b. omega (arith, occ-set_insert-le fresh b p.lent, h b)),
  m,
  inr (omega (arith, length-set_insert fresh p.lent absent, ap length l, ap length e)),
)

take :
    (fresh now : ℕ) (p p1 : Pool) (o : Option ℕ)
    → reuse p.idle p ≡ some (p1, o)
    → IsGood p1
    → Handed p1 o
    → Lends p o p1
    → Searched p p1
    → (o ≡ none → p1.lent ≡ p.lent)
    → p1.heap fresh ≡ none
    → ltb_ℤ (pos (size p1)) p1.max_client ≡ true
    → eq_ℤ (pos (size p1)) p1.max_client ≡ false
    → (x : Pool × Option ℕ) × (open_locked fresh now p ≡ some x) × Taken p x
take fresh now p p1 none found (w, b) handed lends s l free still not_full =
    let test : (true && (length p1.idle == 0 && ltb_ℤ (pos (size p1)) p1.max_client)) ≡ true =
      ground (arith, ap length handed) in
    (
      (create fresh p1, some fresh),
      open_creates fresh now p p1 none found test,
      (
        (
          create-IsValid p1 fresh w free,
          create-IsBounded fresh p1 none (unplaced p1 fresh (w fresh) free).0 test,
        ),
        create_granted fresh p1,
        create-Grows fresh p p1 lends (l refl) s.same_max handed
            (unplaced p1 fresh (w fresh) free).0,
      ),
    )
take fresh now p p1 (some a) found g (c, there, up, lent) lends s l free still not_full = (
  (p1, some a),
  open_keeps fresh now p p1 (some a) found refl not_full,
  (g, lent, (lends, s.same_max, inl (unfold size in s.smaller))),
)

pub open_locked-Taken :
    (fresh now : ℕ) (p : Pool)
    → IsGood p
    → p.heap fresh ≡ none
    → HasRoom p
    → (x : Pool × Option ℕ) × (open_locked fresh now p ≡ some x) × Taken p x
open_locked-Taken fresh now p (v, b) free room =
    let (p1, o, found, w, handed, s) = reuse-IsValid p.idle p refl v in
    let lends : Lends p o p1 =
      Post-known (λ (x : Pool × Option ℕ). Lends p x.1 x.0) _ _ found (reuse-Lends p.idle p) in
    let small = s.smaller in
    take fresh now p p1 o found (w, IsBounded-after p p1 small s.same_max b) handed lends s
      (Post-known (λ (x : Pool × Option ℕ). x.1 ≡ none → x.0.lent ≡ p.lent) _ _ found
        (reuse-lent p.idle p))
      (s.free_kept fresh free)
      (room_left (size p1) (size p) p.max_client p1.max_client small s.same_max room)
      (full_false (size p1) (size p) p.max_client p1.max_client small s.same_max room)

destroy_list-free :
    (force : Bool) (b : ℕ) (xs : List ℕ) (heap : Heap)
    → heap b ≡ none
    → Post (λ (x : List ℕ × Heap). x.1 b ≡ none) (destroy_list force xs heap)
unfolding destroy_list
destroy_list-free force b [] heap h = h
destroy_list-free force b (a ∷ xs) heap h = Post-bind_any _ (heap a) _ (λ c.
    pick (doomed force c) (destroy_list-free force b xs (update heap a none) (ground arith)) (
      Post-bind _ _ (destroy_list force xs heap) _ (destroy_list-free force b xs heap h)
        (λ x k. k)))
  where
    pick :
        (d : Bool)
        → Post (λ (x : List ℕ × Heap). x.1 b ≡ none) (destroy_list force xs (update heap a none))
        → Post
            (λ (x : List ℕ × Heap). x.1 b ≡ none)
            (do (kept, heap') ← destroy_list force xs heap; some (a ∷ kept, heap'))
        → Post
            (λ (x : List ℕ × Heap). x.1 b ≡ none)
            (elim d [
              | true ↦ destroy_list force xs (update heap a none)
              | false ↦ do (kept, heap') ← destroy_list force xs heap; some (a ∷ kept, heap')
            ])
    pick true x y = x
    pick false x y = y

-- What `destroy_clients` leaves as it was.
pub destroy_clients-quiet :
    (fresh : ℕ) (p : Pool)
    → IsGood p
    → p.heap fresh ≡ none
    → HasRoom p
    → (q : Pool) × (destroy_clients false p ≡ some q)
      × IsGood q
      × (q.lent ≡ p.lent)
      × (q.idle ≡ p.idle)
      × (q.max_client ≡ p.max_client)
      × (q.heap fresh ≡ none)
      × HasRoom q
unfolding destroy_clients size
destroy_clients-quiet fresh p g free room =
    let (q, found, w, _, l, i, _, m, _) = destroy_clients-IsValid false p g.0 in
    let gone : Post (λ (x : Pool). x.heap fresh ≡ none) (destroy_clients false p) =
      Post-bind (λ (x : List ℕ × Heap). x.1 fresh ≡ none) _
        (destroy_list false p.to_destrory p.heap) _
        (destroy_list-free false fresh p.to_destrory p.heap free) (λ x k. k) in
    (
      q,
      found,
      destroyed-IsGood false p q found g,
      l,
      i,
      m,
      Post-known (λ (x : Pool). x.heap fresh ≡ none) _ q found gone,
      rw (l, i, m) room,
    )

erased-Grows :
    (p0 p q : Pool) (a : ℕ)
    → Grows p0 (some a) p
    → q.lent ≡ set_erase a p.lent
    → q.max_client ≡ p.max_client
    → size q ≤ size p
    → Grows p0 none q
unfolding size
erased-Grows p0 p q a (h, m, small) e k less =
    ((λ b. rw e (ground (arith, occ-set_erase b a p.lent, h b))), k ∙ m, shrunk small)
  where
    shrunk : IsSmall p0 p → IsSmall p0 q
    shrunk (inl h) = inl (omega arith)
    shrunk (inr h) = inr (omega arith)

-- A client that was taken is given back by `close`.
pub close-Grows :
    (p0 p : Pool) (a : ℕ)
    → IsGood p
    → 0 < occ a p.lent
    → Grows p0 (some a) p
    → (q : Pool) × (close a p ≡ some q) × IsGood q × Grows p0 none q
close-Grows p0 p a g h lends =
    let (c, there, one, event) = IsLent-inv (p.heap a) ((g.0 a).lent_one h) in
    let done = close_lem p a c there event in
    let less = closed_smaller p a c g.0 h in
    elim (Bool-cases c.connected) [
      | inl up ↦
          let e : close a p ≡ some (returned a c p) = done ∙ rw up refl in
          (
            returned a c p,
            e,
            closed-IsGood a p (returned a c p) h e g,
            erased-Grows p0 p (returned a c p) a lends refl refl less.0,
          )
      | inr down ↦
          let e : close a p ≡ some (dropped a c p) = done ∙ rw down refl in
          (
            dropped a c p,
            e,
            closed-IsGood a p (dropped a c p) h e g,
            erased-Grows p0 p (dropped a c p) a lends refl refl less.1,
          )
    ]

-- A lent client with other data, and other states: nothing of the pool's order changes.
pub swapped-IsGood :
    (p : Pool) (a : ℕ) (c d : Client) (bag : StateBag)
    → p.heap a ≡ some c
    → d.using_counter ≡ c.using_counter
    → d.has_event ≡ c.has_event
    → IsGood p
    → IsGood (record p { heap = update p.heap a (some d); state_bag = bag })
swapped-IsGood p a c d bag there counter event (v, b) = (
  placed,
  IsBounded-after p (record p { heap = update p.heap a (some d); state_bag = bag })
      (unfold size in (omega arith)) refl b,
)
  where
    here :
        (x : ℕ)
        → (a == x) ≡ true
        → (IsLent (p.heap x) → IsLent (some d))
          × (IsIdle (p.heap x) → IsIdle (some d))
          × (IsLive (p.heap x) → IsLive (some d))
    here x own =
        let now : p.heap x ≡ some c = subst (λ y. p.heap y ≡ some c) ((==_iff a x).0 own) there in
        rw now ((λ h. (counter ∙ h.0, event ∙ h.1)), (λ h. (counter ∙ h.0, event ∙ h.1)), (λ h. h))

    placed : IsValid (record p { heap = update p.heap a (some d); state_bag = bag })
    placed x = elim (Bool-cases (a == x)) [
      | inl own ↦ record {
        once = (v x).once;
        lent_one = λ h. rw own ((here x own).0 ((v x).lent_one h));
        idle_one = λ h. rw own ((here x own).1 ((v x).idle_one h));
        dying_one = λ h. rw own ((here x own).2 ((v x).dying_one h));
      }
      | inr other ↦ record {
        once = (v x).once;
        lent_one = λ h. rw other ((v x).lent_one h);
        idle_one = λ h. rw other ((v x).idle_one h);
        dying_one = λ h. rw other ((v x).dying_one h);
      }
    ]
