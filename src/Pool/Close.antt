-- ===== src/Pool/Close.antt =====
-- `close` of core/ZkClient.cpp with the handler of core/ClientPool.cpp.
use sfproxy.Prelude.{
  ℕ, ◌<◌, ◌≡◌, refl, ◌∙◌, inl, inr, true, false, some, [], ◌∷◌, ◌++◌, arith, ◌==◌, if◌then◌else◌,
  Bool-cases, pos,
}
use sfproxy.AddressSet.{set_insert, set_erase, occ, occ-set_erase}
use sfproxy.Client.{Client, set_in_using}
use sfproxy.StateBag.{replace_client_id}
use sfproxy.Pool.{Pool, update, close, on_client_closing}
use sfproxy.Pool.Invariant.{IsValid, IsLent-inv}
use sfproxy.Pool.Revoke.{dying_after, idle_after}

==_refl : (a : ℕ) → (a == a) ≡ true
==_refl a = ground arith

-- The pool after the close of client `c` at `a`.
abbrev pub returned : ℕ → Client → Pool → Pool
returned a c p = record p {
  lent = set_erase a p.lent;
  idle = set_insert a p.idle;
  heap = update p.heap a (some (set_in_using false c));
}

abbrev pub dropped : ℕ → Client → Pool → Pool
dropped a c p = record p {
  lent = set_erase a p.lent;
  to_destrory = p.to_destrory ++ (a ∷ []);
  state_bag = replace_client_id c.id 0 p.state_bag;
  heap = update p.heap a (some (set_in_using false c));
}

-- `close` of a live client of the pool puts it among the idle ones if it is connected, and else on
-- the list of clients to destroy, its watches without a client; it never looks at where the client
-- stood before.
pub close_lem :
    (p : Pool) (a : ℕ) (c : Client)
    → p.heap a ≡ some c
    → c.has_event ≡ true
    → close a p ≡ some (if c.connected then returned a c p else dropped a c p)
unfolding close on_client_closing set_in_using
close_lem p a c there event =
    rw (there, event, ==_refl a)
      (elim (Bool-cases c.connected) [ inl up ↦ rw up | inr down ↦ rw down ])

returned-IsValid :
    (p : Pool) (a : ℕ) (c : Client)
    → IsValid p
    → 0 < occ a p.lent
    → c.using_counter ≡ pos 1
    → c.has_event ≡ true
    → IsValid (returned a c p)
unfolding set_in_using
returned-IsValid p a c v h one event b =
    idle_after p a b (set_in_using false c) (v b) (λ e. rw (← e) h) (rw one refl, event)

dropped-IsValid :
    (p : Pool) (a : ℕ) (c : Client) → IsValid p → 0 < occ a p.lent → IsValid (dropped a c p)
dropped-IsValid p a c v h b =
    let w = dying_after p a b (set_in_using false c) (v b) (λ e. rw (← e) h) in
    record { once = w.once; lent_one = w.lent_one; idle_one = w.idle_one; dying_one = w.dying_one }

-- In a valid pool, `close` of a client that is lent reads no freed client, takes the client from
-- the lent ones, and leaves a valid pool.
pub close-IsValid :
    (p : Pool) (a : ℕ)
    → IsValid p
    → 0 < occ a p.lent
    → (q : Pool) × (close a p ≡ some q) × IsValid q × (occ a q.lent ≡ 0)
close-IsValid p a v h =
    let (c, there, one, event) = IsLent-inv (p.heap a) ((v a).lent_one h) in
    elim (Bool-cases c.connected) [
      | inl up ↦ (
        returned a c p,
        close_lem p a c there event ∙ rw up,
        returned-IsValid p a c v h one event,
        occ-set_erase a a p.lent ∙ rw (==_refl a),
      )
      | inr down ↦ (
        dropped a c p,
        close_lem p a c there event ∙ rw down,
        dropped-IsValid p a c v h,
        occ-set_erase a a p.lent ∙ rw (==_refl a),
      )
    ]
