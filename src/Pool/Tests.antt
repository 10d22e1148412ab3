-- ===== src/Pool/Tests.antt =====
-- core/ClientPool.cpp at concrete pools of one or two clients.
use sfproxy.Prelude.{
  ℕ, ◌≤◌, ◌<◌, ◌≡◌, refl, inl, inr, true, false, Option, none, some, [], ◌∷◌, arith, ◌==◌,
  Bool-cases, length, Str, pos,
}
use sfproxy.AddressSet
use sfproxy.AddressSet.{occ}
use sfproxy.Client.{Client}
use mathlib.Core.Option
use sfproxy.StateBag
use sfproxy.StateBag.{ZkState}
use sfproxy.StateBag.Owners.{watches}
use sfproxy.Pool.{
  Pool, update, new_pool, create, size, reuse, evict, timed_out, open_locked, destroy_clients,
  close, reset, open_pool,
}
use sfproxy.Pool.Invariant.{IsValid, new_pool-IsValid, create-IsValid}
use sfproxy.Pool.Evict.{Evicts, evict-Evicts}
use sfproxy.Pool.Destroy.{Destroys}
use sfproxy.Pool.Reset.{destroy_clients-IsValid, reset-empty}
use sfproxy.Pool.Acquire.{IsBounded, Granted, open_locked-IsValid}
use sfproxy.Pool.History.{starts, follows, opens, Reaches-IsValid}
use sfproxy.Pool.Dangling.{open_hands_out_revoked, close_then_open}

abbrev one_lent : Pool
one_lent = create 7 new_pool

one_lent-IsValid : IsValid one_lent
unfolding new_pool
one_lent-IsValid = create-IsValid new_pool 7 new_pool-IsValid refl

abbrev pub unused : Client
unused = record {
  last_use = 0;
  use_times = 1;
  using_counter = pos 0;
  connected = true;
  id = 1;
  session_id = 0;
  has_event = true;
}

-- A full pool whose one client is idle, connected, and old.
abbrev pub one_idle : Pool
one_idle = record {
  lent = [];
  idle = 7 ∷ [];
  to_destrory = [];
  max_client = pos 1;
  used_timeout = 1000;
  conn_timeout = 86400;
  last_id = 1;
  state_bag = [];
  heap = update (λ _. none) 7 (some unused);
}

-- The same client after it was revoked.
abbrev one_revoked : Pool
one_revoked = record one_idle { idle = []; to_destrory = 7 ∷ [] }

pub one_idle-IsValid : IsValid one_idle
unfolding occ
one_idle-IsValid a = elim (Bool-cases (7 == a)) [
  | inl own ↦ record {
    once = rw own (omega arith);
    lent_one = λ h. absurd (omega arith);
    idle_one = λ h. rw own (refl, refl);
    dying_one = λ h. absurd (omega arith);
  }
  | inr other ↦ record {
    once = rw other (omega arith);
    lent_one = λ h. absurd (omega arith);
    idle_one = λ h. absurd (ground arith);
    dying_one = λ h. absurd (omega arith);
  }
]

one_revoked-IsValid : IsValid one_revoked
unfolding occ
one_revoked-IsValid a = elim (Bool-cases (7 == a)) [
  | inl own ↦ record {
    once = rw own (omega arith);
    lent_one = λ h. absurd (omega arith);
    idle_one = λ h. absurd (omega arith);
    dying_one = λ h. rw own tt;
  }
  | inr other ↦ record {
    once = rw other (omega arith);
    lent_one = λ h. absurd (omega arith);
    idle_one = λ h. absurd (omega arith);
    dying_one = λ h. absurd (ground arith);
  }
]

full_now : 0 < occ 7 one_lent.lent
unfolding occ create new_pool AddressSet.set_insert
full_now = omega arith

one_idle-IsBounded : IsBounded one_idle
unfolding size
one_idle-IsBounded = refl

open_locked-IsValid_example :
    (q : Pool) × (o : Option ℕ) × (open_locked 8 5000 one_idle ≡ some (q, o))
    × IsValid q
    × IsBounded q
    × Granted one_idle q o
open_locked-IsValid_example =
    open_locked-IsValid 8 5000 one_idle one_idle-IsValid refl one_idle-IsBounded

evict-Evicts_example :
    (q : Pool) × (evict 2 5000 one_lent ≡ some q)
    × IsValid q
    × Evicts 5000 one_lent q
    × (q.max_client ≡ one_lent.max_client)
    × (q.idle ≡ one_lent.idle)
    × (length q.lent ≤ length one_lent.lent)
unfolding create new_pool AddressSet.set_insert
evict-Evicts_example = evict-Evicts 2 5000 one_lent one_lent-IsValid (omega arith)

destroy_clients-IsValid_example :
    (q : Pool) × (destroy_clients false one_revoked ≡ some q)
    × IsValid q
    × Destroys false one_revoked.to_destrory one_revoked.heap q.to_destrory q.heap
    × (q.lent ≡ one_revoked.lent)
    × (q.idle ≡ one_revoked.idle)
    × (q.state_bag ≡ one_revoked.state_bag)
    × (q.max_client ≡ one_revoked.max_client)
    × (q.used_timeout ≡ one_revoked.used_timeout)
destroy_clients-IsValid_example = destroy_clients-IsValid false one_revoked one_revoked-IsValid

reset-empty_example :
    (q : Pool) × (reset 3 one_lent ≡ some q)
    × IsValid q
    × (q.lent ≡ [])
    × (q.idle ≡ [])
    × (q.to_destrory ≡ [])
    × ((k : Str)
        → StateBag.get k q.state_bag
          ≡ Option.map {A = ZkState}
              (λ s. record s { client_id = 0 })
              (StateBag.get k one_lent.state_bag))
    × (watches 0 q.state_bag ≡ StateBag.size one_lent.state_bag)
    × (q.max_client ≡ one_lent.max_client)
reset-empty_example = reset-empty 3 one_lent one_lent-IsValid

opened : open_locked 7 0 new_pool ≡ some (one_lent, some 7)
unfolding open_locked reuse new_pool size
opened = refl

free_address : new_pool.heap 7 ≡ none
unfolding new_pool
free_address = refl

Reaches-IsValid_example : IsValid one_lent × IsBounded one_lent
Reaches-IsValid_example =
    Reaches-IsValid one_lent (follows starts (opens 7 0 (some 7) free_address opened))

open_hands_out_revoked_example :
    (q r : Pool) × (open_locked 8 5000 one_idle ≡ some (q, some 7))
    × (occ 7 q.lent ≡ 0)
    × (destroy_clients false q ≡ some r)
    × (r.heap 7 ≡ none)
unfolding timed_out size
open_hands_out_revoked_example =
    open_hands_out_revoked 8 5000 one_idle 7 unused [] one_idle-IsValid refl refl refl refl refl

close_then_open_example :
    (q r : Pool) × (close 7 one_revoked ≡ some q)
    × (destroy_clients false q ≡ some r)
    × (r.idle ≡ 7 ∷ [])
    × (r.heap 7 ≡ none)
    × (open_pool (λ a p. some p) 8 5000 q ≡ none)
unfolding occ
close_then_open_example =
    close_then_open (λ a p. some p) 8 5000 one_revoked 7 unused one_revoked-IsValid refl
      (omega arith) refl refl refl refl
