-- ===== src/Pool/Dangling.antt =====
-- Orders of the calls of core/ClientPool.cpp after which a client that is freed can still be reached.
use sfproxy.Prelude.{
  ℕ, suc, ◌<◌, ◌≡◌, refl, sym, ap, ◌∙◌, subst, ◌⊎◌, inl, inr, true, false, Option, none, some, List,
  [], ◌∷◌, arith, ◌==◌, Bool-cases, length, ℤ, pos, eq_ℤ,
}
use sfproxy.AddressSet.{occ, set_insert}
use sfproxy.Client.{Client, set_in_using}
use sfproxy.Pool.{
  Pool, lend, reuse, size, timed_out, open_locked, destroy_clients, close, open_pool,
}
use sfproxy.Pool.Invariant.{IsValid, IsIdle, IsLive, idle_head, lend-IsValid}
use sfproxy.Pool.Open.{reuse_up, size-lend, idle_not_lent, occ-set_insert_pos}
use sfproxy.Pool.Evict.{Expired, Revoked, Untouched, evict-Evicts}
use sfproxy.Pool.Acquire.{open_evicts}
use sfproxy.Pool.Destroy.{IsDoomed, IsOwned, DestroysAt, destroy_list-Destroys}
use sfproxy.Pool.Reset.{destroy_clients-IsValid, dying-IsOwned}
use sfproxy.Pool.Close.{close_lem, returned}

idle-IsDoomed : (o : Option Client) → IsIdle o → IsDoomed false o
idle-IsDoomed none h = elim h [ ]
idle-IsDoomed (some c) h = inr (rw h.0 refl)

doomed_freed :
    (n : ℕ) (o : Option Client) (k : ℕ) (o' : Option Client)
    → 0 < n
    → IsDoomed false o
    → DestroysAt false n o k o'
    → o' ≡ none
doomed_freed n o k o' here doom (inl (_, _, _, e)) = e
doomed_freed n o k o' here doom (inr (spared, _, _)) = absurd (spared (doom, here))

lend-Expired :
    (now : ℕ) (p : Pool) (a : ℕ) (c : Client) (rest : List ℕ)
    → timed_out p.used_timeout now c ≡ true
    → Expired now (lend a c rest p) a
unfolding lend timed_out set_in_using
lend-Expired now p a c rest late =
    let own : (a == a) ≡ true = ground arith in
    (set_in_using true c, rw own refl, late, occ-set_insert_pos a p.lent)

own-Revoked :
    (now : ℕ) (p q : Pool) (a : ℕ)
    → Expired now p a
    → Revoked now p q a ⊎ ((¬ Expired now p a) × Untouched p q a)
    → (occ a q.lent ≡ 0) × (occ a q.to_destrory ≡ 1) × IsIdle (q.heap a)
own-Revoked now p q a x (inl (_, l, d, i)) = (l, d, i)
own-Revoked now p q a x (inr (n, _)) = absurd (n x)

bound_met : (n : ℕ) (z : ℤ) → z ≡ pos n → eq_ℤ (pos n) z ≡ true
bound_met n z e = rw e (ground arith)

module _ (fresh now : ℕ) (p : Pool) (a : ℕ) (c : Client) (rest : List ℕ) (v : IsValid p) where
  -- In a valid pool that is at its bound, whose first idle client is connected and was last taken
  -- longer ago than the timeout, `open` hands out that very client, no longer lent, and the next
  -- `destroy_clients` frees it under the hands of the caller.
  pub open_hands_out_revoked :
      p.idle ≡ a ∷ rest
      → p.heap a ≡ some c
      → c.connected ≡ true
      → timed_out p.used_timeout now c ≡ true
      → p.max_client ≡ pos (size p)
      → (q r : Pool) × (open_locked fresh now p ≡ some (q, some a))
        × (occ a q.lent ≡ 0)
        × (destroy_clients false q ≡ some r)
        × (r.heap a ≡ none)
  open_hands_out_revoked e there up late full =
      let (d, here, clear, event) = idle_head p a rest v e in
      let same : d ≡ c = ground (arith, here, there) in
      let lent : Pool = lend a c rest p in
      let w : IsValid lent =
        lend-IsValid p a c rest v e (ap (λ x. x.using_counter) (sym same) ∙ clear)
          (ap (λ x. x.has_event) (sym same) ∙ event) in
      let found : reuse p.idle p ≡ some (lent, some a) =
        subst (λ l. reuse l p ≡ some (lent, some a)) (sym e) (reuse_up a c rest p there up) in
      let at_max : lent.max_client ≡ pos (size lent) =
        unfold lend in
        (full ∙ ap pos (sym (size-lend a c rest p e (idle_not_lent p a rest v e)))) in
      let (q, evicted, x, all, _, _, _) =
        evict-Evicts (suc (length lent.lent)) now lent w (omega arith) in
      let (r, destroyed, _, d, _, _, _, _, _) = destroy_clients-IsValid false q x in
      let (gone, listed, unused) =
        own-Revoked now lent q a (lend-Expired now p a c rest late) (all a) in
      (
        q,
        r,
        open_evicts fresh now p lent (some a) found refl
            (bound_met (size lent) lent.max_client at_max) evicted,
        gone,
        destroyed,
        doomed_freed (occ a q.to_destrory) (q.heap a) (occ a r.to_destrory) (r.heap a)
            (omega (arith, listed)) (idle-IsDoomed (q.heap a) unused) (d a),
      )

returned-IsOwned :
    (p : Pool) (a : ℕ) (c : Client) → IsValid p → IsOwned p.to_destrory (returned a c p).heap
returned-IsOwned p a c v b = ((dying-IsOwned p v b).0, λ h. live b ((dying-IsOwned p v b).1 h))
  where
    live : (b : ℕ) → IsLive (p.heap b) → IsLive ((returned a c p).heap b)
    live b l = elim (Bool-cases (a == b)) [ inl own ↦ rw own tt | inr other ↦ rw other l ]

-- `close` of a client that no thread uses makes its counter negative.
closed-IsDoomed :
    (p : Pool) (a : ℕ) (c : Client)
    → c.using_counter ≡ pos 0
    → IsDoomed false ((returned a c p).heap a)
unfolding set_in_using
closed-IsDoomed p a c clear =
    let own : (a == a) ≡ true = ground arith in rw own (inr (rw clear refl))

open_reads_freed :
    (fresh now : ℕ) (p : Pool) (a : ℕ) (rest : List ℕ)
    → p.idle ≡ a ∷ rest
    → p.heap a ≡ none
    → open_locked fresh now p ≡ none
unfolding open_locked reuse
open_reads_freed fresh now p a rest e gone = rw e (rw gone refl)

-- In a valid pool with no idle client, where a connected client that no thread uses waits to be
-- destroyed (as a revoked one does), `close` of that client puts it among the idle ones, the next
-- `destroy_clients` frees it there, and the `open` that makes that call reads the freed client.
pub close_then_open :
    (client_open : ℕ → Pool → Option Pool) (fresh now : ℕ) (p : Pool) (a : ℕ) (c : Client)
    → IsValid p
    → p.idle ≡ []
    → 0 < occ a p.to_destrory
    → p.heap a ≡ some c
    → c.using_counter ≡ pos 0
    → c.connected ≡ true
    → c.has_event ≡ true
    → (q r : Pool) × (close a p ≡ some q)
      × (destroy_clients false q ≡ some r)
      × (r.idle ≡ a ∷ [])
      × (r.heap a ≡ none)
      × (open_pool client_open fresh now q ≡ none)
unfolding destroy_clients open_pool set_insert
close_then_open client_open fresh now p a c v alone listed there clear up event =
    let q : Pool = returned a c p in
    let (kept, heap, e, d) =
      destroy_list-Destroys false q.to_destrory q.heap (returned-IsOwned p a c v) in
    let r : Pool = record q { to_destrory = kept; heap = heap } in
    let gone : heap a ≡ none =
      doomed_freed (occ a q.to_destrory) (q.heap a) (occ a kept) (heap a) listed
        (closed-IsDoomed p a c clear) (d a) in
    let single : r.idle ≡ a ∷ [] = rw alone refl in
    (
      q,
      r,
      close_lem p a c there event ∙ rw up refl,
      rw e refl,
      single,
      gone,
      rw e (rw (open_reads_freed fresh now r a [] single gone) refl),
    )
