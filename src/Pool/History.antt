-- ===== src/Pool/History.antt =====
-- The calls of core/ClientPool.cpp as steps of one pool, each under the lock, in any order.
use sfproxy.Prelude.{
  ℕ, ◌≤◌, ◌<◌, ◌≡◌, refl, sym, ap, ◌∙◌, subst, inl, inr, Bool, true, false, Option, none, some,
  arith, ◌==◌, if◌then◌else◌, ==_iff, Bool-cases, ℤ, pos, ltb_ℤ,
}
use sfproxy.AddressSet.{occ, length-set_insert, length-set_erase}
use sfproxy.Client.{Client, set_connected}
use sfproxy.Pool.{
  Pool, update, new_pool, size, open_locked, destroy_clients, close, reset, set_max_client,
  set_used_timeout,
}
use sfproxy.Pool.Invariant.{IsValid, IsIdle, IsLent, IsLent-inv, IsLive, new_pool-IsValid}
use sfproxy.Pool.Close.{close_lem, close-IsValid, returned, dropped}
use sfproxy.Pool.Reset.{destroy_clients-IsValid, reset-empty}
use sfproxy.Pool.Acquire.{IsBounded, open_locked-IsValid}

-- What happens to a live client between the calls: the ZooKeeper session comes or goes, and `open`
-- notes the time of use.
abbrev pub touch : ℕ → Bool → ℕ → Client → Pool → Pool
touch a connected last_use c p = record p {
  heap = update p.heap a (some (record (set_connected connected c) { last_use = last_use }));
}

-- `new` gives an address without a client; a thread closes a client that is lent; a bound that is
-- set is not below the number of clients.
pub data PoolStep : Pool → Pool → Type 0 where
  destroys : {p q : Pool} (force : Bool) → destroy_clients force p ≡ some q → PoolStep p q
  opens :
      {p q : Pool} (fresh now : ℕ) (o : Option ℕ)
      → p.heap fresh ≡ none
      → open_locked fresh now p ≡ some (q, o)
      → PoolStep p q
  closes : {p q : Pool} (a : ℕ) → 0 < occ a p.lent → close a p ≡ some q → PoolStep p q
  touches :
      {p : Pool} (a : ℕ) (connected : Bool) (last_use : ℕ) (c : Client)
      → p.heap a ≡ some c
      → PoolStep p (touch a connected last_use c p)
  resets : {p q : Pool} (rounds : ℕ) → reset rounds p ≡ some q → PoolStep p q
  bounds :
      {p : Pool} (max : ℤ) → ltb_ℤ max (pos (size p)) ≡ false → PoolStep p (set_max_client max p)
  times_out : {p : Pool} (timeout_in_ms : ℤ) → PoolStep p (set_used_timeout timeout_in_ms p)

pub data Reaches : Pool → Type 0 where
  starts : Reaches new_pool
  follows : {p q : Pool} → Reaches p → PoolStep p q → Reaches q

abbrev pub IsGood : Pool → Type 0
IsGood p = IsValid p × IsBounded p

pub IsBounded-after :
    (p q : Pool) → size q ≤ size p → q.max_client ≡ p.max_client → IsBounded p → IsBounded q
IsBounded-after p q s m b = fits (size q) (size p) q.max_client p.max_client s m b
  where
    fits :
        (n k : ℕ) (z z' : ℤ) → n ≤ k → z ≡ z' → ltb_ℤ z' (pos k) ≡ false → ltb_ℤ z (pos n) ≡ false
    fits n k z z' h e f = rw e (ground arith)

pub some_inj {ℓ} : {A : Type ℓ} {x y : A} → some x ≡ some y → x ≡ y
some_inj e = ground arith

-- The pool after a step is the one that the operation's theorem describes.
same-IsGood : {q r : Pool} → some q ≡ some r → IsGood q → IsGood r
same-IsGood e g = subst IsGood (some_inj e) g

pub closed_smaller :
    (p : Pool) (a : ℕ) (c : Client)
    → IsValid p
    → 0 < occ a p.lent
    → (size (returned a c p) ≤ size p) × (size (dropped a c p) ≤ size p)
unfolding size
closed_smaller p a c v h =
    let gone = length-set_erase a p.lent h in
    (omega (arith, length-set_insert a p.idle (omega (arith, (v a).once))), omega arith)

pub destroyed-IsGood :
    (force : Bool) (p q : Pool) → destroy_clients force p ≡ some q → IsGood p → IsGood q
destroyed-IsGood force p q e (v, b) =
    let (r, found, w, _, l, i, _, m, _) = destroy_clients-IsValid force p v in
    same-IsGood (sym found ∙ e)
      (w, IsBounded-after p r (unfold size in (rw (l, i) (omega arith))) m b)

pub opened-IsGood :
    (fresh now : ℕ) (o : Option ℕ) (p q : Pool)
    → p.heap fresh ≡ none
    → open_locked fresh now p ≡ some (q, o)
    → IsGood p
    → IsGood q
opened-IsGood fresh now o p q free e (v, b) =
    let (r, o', found, w, c, _) = open_locked-IsValid fresh now p v free b in
    let both : (r, o') ≡ (q, o) = some_inj (sym found ∙ e) in
    subst IsGood (ap (λ x. x.0) both) (w, c)

pub closed-IsGood :
    (a : ℕ) (p q : Pool) → 0 < occ a p.lent → close a p ≡ some q → IsGood p → IsGood q
closed-IsGood a p q h e (v, b) =
    let (r, found, w, _) = close-IsValid p a v h in
    let (c, there, _, event) = IsLent-inv (p.heap a) ((v a).lent_one h) in
    let is : r ≡ (if c.connected then returned a c p else dropped a c p) =
      some_inj (sym found ∙ close_lem p a c there event) in
    same-IsGood (sym found ∙ e) (w, rw is (pick c c.connected (closed_smaller p a c v h)))
  where
    pick :
        (c : Client) (up : Bool)
        → (size (returned a c p) ≤ size p) × (size (dropped a c p) ≤ size p)
        → IsBounded (if up then returned a c p else dropped a c p)
    pick c true s = IsBounded-after p (returned a c p) s.0 refl b
    pick c false s = IsBounded-after p (dropped a c p) s.1 refl b

pub reset-IsGood : (rounds : ℕ) (p q : Pool) → reset rounds p ≡ some q → IsGood p → IsGood q
reset-IsGood rounds p q e (v, b) =
    let (r, found, w, l, i, _, _, _, m) = reset-empty rounds p v in
    same-IsGood (sym found ∙ e)
      (w, IsBounded-after p r (unfold size in (rw (l, i) (omega arith))) m b)

touched-IsGood :
    (a : ℕ) (connected : Bool) (last_use : ℕ) (c : Client) (p : Pool)
    → p.heap a ≡ some c
    → IsGood p
    → IsGood (touch a connected last_use c p)
unfolding set_connected
touched-IsGood a connected last_use c p there (v, b) = (
  placed,
  IsBounded-after p (touch a connected last_use c p) (unfold size in (omega arith)) refl b,
)
  where
    here :
        (x : ℕ)
        → (a == x) ≡ true
        → (IsLent (p.heap x) → IsLent ((touch a connected last_use c p).heap x))
          × (IsIdle (p.heap x) → IsIdle ((touch a connected last_use c p).heap x))
          × (IsLive (p.heap x) → IsLive ((touch a connected last_use c p).heap x))
    here x own =
        let now : p.heap x ≡ some c = subst (λ y. p.heap y ≡ some c) ((==_iff a x).0 own) there in
        rw (own, now) ((λ h. h), (λ h. h), (λ h. h))

    placed : IsValid (touch a connected last_use c p)
    placed x = elim (Bool-cases (a == x)) [
      | inl own ↦ record {
        once = (v x).once;
        lent_one = λ h. (here x own).0 ((v x).lent_one h);
        idle_one = λ h. (here x own).1 ((v x).idle_one h);
        dying_one = λ h. (here x own).2 ((v x).dying_one h);
      }
      | inr other ↦ record {
        once = (v x).once;
        lent_one = λ h. rw other ((v x).lent_one h);
        idle_one = λ h. rw other ((v x).idle_one h);
        dying_one = λ h. rw other ((v x).dying_one h);
      }
    ]

pub new_pool-IsBounded : IsBounded new_pool
unfolding new_pool size
new_pool-IsBounded = refl

max-IsGood :
    (max : ℤ) (p : Pool)
    → ltb_ℤ max (pos (size p)) ≡ false
    → IsGood p
    → IsGood (set_max_client max p)
unfolding set_max_client size
max-IsGood max p h g = elim (Bool-cases (ltb_ℤ (pos 0) p.max_client)) [
  | inl set ↦ rw set (
    (λ a.
        let w = g.0 a in
        record {
          once = w.once;
          lent_one = w.lent_one;
          idle_one = w.idle_one;
          dying_one = w.dying_one;
        }),
    h,
  )
  | inr kept ↦ rw kept g
]

timeout-IsGood : (t : ℤ) (p : Pool) → IsGood p → IsGood (set_used_timeout t p)
unfolding set_used_timeout size
timeout-IsGood t p g = elim (Bool-cases (ltb_ℤ (pos 0) t)) [
  | inl set ↦ rw set (
    (λ a.
        let w = g.0 a in
        record {
          once = w.once;
          lent_one = w.lent_one;
          idle_one = w.idle_one;
          dying_one = w.dying_one;
        }),
    g.1,
  )
  | inr kept ↦ rw kept g
]

-- A pool is valid, and has no more clients than its bound, after any number of its calls in any
-- order, from a new pool, as long as `close` is only called with a client that is lent,
-- `set_max_client` only with a bound not below the number of clients, and `new` gives an address
-- without a client. Valid means that each client stands in one place at most, and that its state is
-- as the place says.
pub Reaches-IsValid : (p : Pool) → Reaches p → IsValid p × IsBounded p
Reaches-IsValid p starts = (new_pool-IsValid, new_pool-IsBounded)
Reaches-IsValid q (follows {p} r (destroys force e)) =
    destroyed-IsGood force p q e (Reaches-IsValid p r)
Reaches-IsValid q (follows {p} r (opens fresh now o free e)) =
    opened-IsGood fresh now o p q free e (Reaches-IsValid p r)
Reaches-IsValid q (follows {p} r (closes a h e)) = closed-IsGood a p q h e (Reaches-IsValid p r)
Reaches-IsValid q (follows {p} r (touches a connected last_use c there)) =
    touched-IsGood a connected last_use c p there (Reaches-IsValid p r)
Reaches-IsValid q (follows {p} r (resets rounds e)) =
    reset-IsGood rounds p q e (Reaches-IsValid p r)
Reaches-IsValid q (follows {p} r (bounds max h)) = max-IsGood max p h (Reaches-IsValid p r)
Reaches-IsValid q (follows {p} r (times_out t)) = timeout-IsGood t p (Reaches-IsValid p r)
