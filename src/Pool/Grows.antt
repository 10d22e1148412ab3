-- ===== src/Pool/Grows.antt =====
-- How many clients a pool of core/ClientPool.cpp has and lends, between its calls.
use sfproxy.Prelude.{
  ℕ, ◌+◌, ◌≤◌, ◌≡◌, refl, ap, ◌∙◌, ◌⊎◌, inl, inr, Bool, true, false, Option, none, some, List, [],
  ◌∷◌, arith, ◌==◌, if◌then◌else◌, length, ℤ, pos, ltb_ℤ, eq_ℤ,
}
use sfproxy.AddressSet.{set_insert, occ}
use sfproxy.Client.{Client}
use sfproxy.Pool.{Pool, park, lend, reuse, size}
use sfproxy.Prelude.{Post, Post-bind_any}

-- Once for the client that was handed out.
abbrev pub mark : Option ℕ → ℕ → ℕ
mark none b = 0
mark (some a) b = if a == b then 1 else 0

-- No client is lent that was not lent before, but the one that was handed out.
abbrev pub Lends : Pool → Option ℕ → Pool → Type 0
Lends p o q = (b : ℕ) → occ b q.lent ≤ occ b p.lent + mark o b

-- Nor does the pool have more clients than before, or one more than were lent.
abbrev pub IsSmall : Pool → Pool → Type 0
IsSmall p q =
    (length q.lent + length q.idle ≤ length p.lent + length p.idle)
    ⊎ (length q.lent + length q.idle ≤ length p.lent + 1)

-- How a pool has changed while at most the client that was handed out is held.
abbrev pub Grows : Pool → Option ℕ → Pool → Type 0
Grows p o q = Lends p o q × (q.max_client ≡ p.max_client) × IsSmall p q

pub Grows-after :
    (p p1 q : Pool) (o : Option ℕ)
    → p1.lent ≡ p.lent
    → p1.idle ≡ p.idle
    → p1.max_client ≡ p.max_client
    → Grows p1 o q
    → Grows p o q
Grows-after p p1 q o l i m (h, k, small) =
    ((λ b. omega (arith, h b, ap (occ b) l)), k ∙ m, smaller l i small)
  where
    smaller : p1.lent ≡ p.lent → p1.idle ≡ p.idle → IsSmall p1 q → IsSmall p q
    smaller l i (inl h) = inl (omega (arith, ap length l, ap length i))
    smaller l i (inr h) = inr (omega (arith, ap length l))

pub occ-set_insert-le :
    (a b : ℕ) (xs : List ℕ) → occ b (set_insert a xs) ≤ occ b xs + (if a == b then 1 else 0)
unfolding occ set_insert
occ-set_insert-le a b [] = ground arith
occ-set_insert-le a b (x ∷ xs) = ground (arith, occ-set_insert-le a b xs)

abbrev pub HasRoom : Pool → Type 0
HasRoom p = ltb_ℤ (pos (size p)) p.max_client ≡ true

pub reuse-Lends :
    (xs : List ℕ) (p : Pool) → Post (λ (x : Pool × Option ℕ). Lends p x.1 x.0) (reuse xs p)
unfolding reuse park lend
reuse-Lends [] p = λ b. omega arith
reuse-Lends (a ∷ xs) p =
    Post-bind_any _ (p.heap a) _ (λ c. pick c c.connected (reuse-Lends xs (park a c xs p)))
  where
    pick :
        (c : Client) (up : Bool)
        → Post (λ (x : Pool × Option ℕ). Lends p x.1 x.0) (reuse xs (park a c xs p))
        → Post
            (λ (x : Pool × Option ℕ). Lends p x.1 x.0)
            (elim up [ true ↦ some (lend a c xs p, some a) | false ↦ reuse xs (park a c xs p) ])
    pick c true rest = λ b. occ-set_insert-le a b p.lent
    pick c false rest = rest

-- A search that finds nothing has lent nothing.
pub reuse-lent :
    (xs : List ℕ) (p : Pool)
    → Post (λ (x : Pool × Option ℕ). x.1 ≡ none → x.0.lent ≡ p.lent) (reuse xs p)
unfolding reuse park lend
reuse-lent [] p = λ e. refl
reuse-lent (a ∷ xs) p =
    Post-bind_any _ (p.heap a) _ (λ c. pick c c.connected (reuse-lent xs (park a c xs p)))
  where
    pick :
        (c : Client) (up : Bool)
        → Post (λ (x : Pool × Option ℕ). x.1 ≡ none → x.0.lent ≡ p.lent) (reuse xs (park a c xs p))
        → Post
            (λ (x : Pool × Option ℕ). x.1 ≡ none → x.0.lent ≡ p.lent)
            (elim up [ true ↦ some (lend a c xs p, some a) | false ↦ reuse xs (park a c xs p) ])
    pick c true rest = λ e. cc
    pick c false rest = rest

pub full_false :
    (m n : ℕ) (z z' : ℤ) → m ≤ n → z' ≡ z → ltb_ℤ (pos n) z ≡ true → eq_ℤ (pos m) z' ≡ false
full_false m n z z' h e k = rw e (ground arith)

pub room_left :
    (m n : ℕ) (z z' : ℤ) → m ≤ n → z' ≡ z → ltb_ℤ (pos n) z ≡ true → ltb_ℤ (pos m) z' ≡ true
room_left m n z z' h e k = rw e (ground arith)
