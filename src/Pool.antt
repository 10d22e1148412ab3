-- ===== src/Pool.antt =====
-- `ClientPool` of core/ClientPool.h and core/ClientPool.cpp, on an explicit heap of clients.
-- A result of `none` is undefined behaviour: a read or a `delete` of a client that is not there.
-- Clock readings are arguments, and so is the address that `new` gives to a client.
pub mod Invariant
pub mod Revoke
pub mod Close
pub mod Open
pub mod Evict
pub mod Destroy
pub mod Reset
pub mod Acquire
pub mod History
pub mod Grows
pub mod Counts
pub mod Waiting
pub mod Dangling
pub mod Tests
use sfproxy.Prelude.{
  ℕ, zero, suc, ◌+◌, ◌-◌, ◌*◌, ◌/◌, ◌%◌, ◌^◌, ◌≤◌, ◌<◌, ◌≡◌, refl, sym, ap, ◌∙◌, subst, ◌≢◌, ◌↔◌,
  ◌⊎◌, inl, inr, Bool, true, false, ◌&&◌, ◌||◌, not, Option, none, some, List, [], ◌∷◌, ◌++◌, map,
  arith, ltb, leb, ◌==◌, if◌then◌else◌, ◌>>=◌, ◌>>◌, ltb→lt, lt→ltb, ltb-false, ==_iff, Bool-cases,
  Option-cases, length, length-append, keep_if, length-keep_if-le, keep_if-append, All, All-append,
  All-keep_if, Str, codes, str_eq, str_lt, str_eq_iff, str_eq_refl, ℤ, pos, negsuc, pos_part,
  neg_part, sub_ℕ, ◌+ℤ◌, ltb_ℤ, eq_ℤ,
}
use sfproxy.AddressSet.{set_insert, set_erase}
use sfproxy.Client.{Client, new_client, set_in_using, event_type_closeing}
use sfproxy.StateBag.{StateBag, replace_client_id, reset_client_id}
use sfproxy.StateBag

abbrev pub Heap : Type 0
Heap = ℕ → Option Client

pub record Pool : Type 0 where
  pub lent : List ℕ
  pub idle : List ℕ
  pub to_destrory : List ℕ
  pub max_client : ℤ
  pub used_timeout : ℕ
  pub conn_timeout : ℕ
  pub last_id : ℕ
  pub state_bag : StateBag
  pub heap : Heap

abbrev pub max_client_def : ℕ
max_client_def = 50

abbrev pub max_used_times_def : ℕ
max_used_times_def = 1_000_000

abbrev pub conn_timeout_def : ℕ
conn_timeout_def = 86400

abbrev pub used_timeout_def : ℕ
used_timeout_def = 10 * 60 * 1000

abbrev pub destrory_wait_timeout_ms : ℕ
destrory_wait_timeout_ms = 1000

-- `ClientPool(factory)`.
unfoldable pub new_pool : Pool
new_pool = record {
  lent = [];
  idle = [];
  to_destrory = [];
  max_client = pos max_client_def;
  used_timeout = max_used_times_def;
  conn_timeout = conn_timeout_def;
  last_id = 0;
  state_bag = [];
  heap = λ _. none;
}

abbrev pub update : Heap → ℕ → Option Client → Heap
update heap a o b = if a == b then o else heap b

unfoldable pub size : Pool → ℕ
size p = length p.lent + length p.idle

unfoldable pub used : Pool → ℕ
used p = length p.lent

unfoldable pub destroying : Pool → ℕ
destroying p = length p.to_destrory

unfoldable pub idle_size : Pool → ℕ
idle_size p = length p.idle

unfoldable pub watcher_size : Pool → ℕ
watcher_size p = StateBag.size p.state_bag

-- The body of the loop that looks for an idle client, over the clients that are left.
unfoldable pub park : ℕ → Client → List ℕ → Pool → Pool
park a c rest p = record p {
  idle = rest;
  to_destrory = p.to_destrory ++ (a ∷ []);
  state_bag = replace_client_id c.id 0 p.state_bag;
}

unfoldable pub lend : ℕ → Client → List ℕ → Pool → Pool
unfolding set_in_using
lend a c rest p = record p {
  lent = set_insert a p.lent;
  idle = rest;
  heap = update p.heap a (some (set_in_using true c));
}

unfoldable pub reuse : List ℕ → Pool → Option (Pool × Option ℕ)
reuse [] p = some (p, none)
reuse (a ∷ rest) p = do
  c ← p.heap a
  elim c.connected [ true ↦ some (lend a c rest p, some a) | false ↦ reuse rest (park a c rest p) ]

-- A new client at address `a`.
unfoldable pub create : ℕ → Pool → Pool
unfolding set_in_using new_client
create a p = record p {
  last_id = p.last_id + 1;
  lent = set_insert a p.lent;
  heap = update p.heap a (
      some (record (set_in_using true (record new_client { id = p.last_id + 1 })) {
        has_event = true;
      }));
}

-- `(now - p->last_use_) > used_timeout_`, in 64 bits.
unfoldable pub timed_out : ℕ → ℕ → Client → Bool
timed_out used_timeout now c = ltb used_timeout ((now + 2 ^ 64 - c.last_use) % 2 ^ 64)

unfoldable pub revoke : ℕ → Client → Pool → Pool
unfolding set_in_using
revoke a c p = record p {
  lent = set_erase a p.lent;
  to_destrory = p.to_destrory ++ (a ∷ []);
  state_bag = replace_client_id c.id 0 p.state_bag;
  heap = update p.heap a (some (set_in_using false c));
}

-- One pass over the lent clients: the first that has timed out is revoked. The flag is `done`.
unfoldable pub evict_pass : ℕ → List ℕ → Pool → Option (Pool × Bool)
evict_pass now [] p = some (p, true)
evict_pass now (a ∷ rest) p = do
  c ← p.heap a
  if timed_out p.used_timeout now c then some (revoke a c p, false) else evict_pass now rest p

-- Passes until one finds nothing. Each other pass takes a lent client away.
unfoldable pub evict : ℕ → ℕ → Pool → Option Pool
evict zero now p = none
evict (suc fuel) now p = do
  (p', done) ← evict_pass now p.lent p
  elim done [ true ↦ some p' | false ↦ evict fuel now p' ]

abbrev pub is_none {ℓ} : {A : Type ℓ} → Option A → Bool
is_none none = true
is_none (some a) = false

-- `open` under its lock.
unfoldable pub open_locked : ℕ → ℕ → Pool → Option (Pool × Option ℕ)
open_locked fresh now p = do
  (p1, c) ← reuse p.idle p
  if is_none c && (length p1.idle == 0 && ltb_ℤ (pos (size p1)) p1.max_client)
      then some (create fresh p1, some fresh)
      else if eq_ℤ (pos (size p1)) p1.max_client
      then (do p2 ← evict (suc (length p1.lent)) now p1; some (p2, c))
      else some (p1, c)

-- `force || client->using_counter < 1`.
unfoldable pub doomed : Bool → Client → Bool
doomed force c = force || ltb_ℤ c.using_counter (pos 1)

-- `destroy_clients`: the clients that stay on the list, and the heap without the others.
unfoldable pub destroy_list : Bool → List ℕ → Heap → Option (List ℕ × Heap)
destroy_list force [] heap = some ([], heap)
destroy_list force (a ∷ rest) heap = do
  c ← heap a
  elim (doomed force c) [
    | true ↦ destroy_list force rest (update heap a none)
    | false ↦ do (kept, heap') ← destroy_list force rest heap; some (a ∷ kept, heap')
  ]

unfoldable pub destroy_clients : Bool → Pool → Option Pool
unfolding destroy_list
destroy_clients force p = do
  (kept, heap) ← destroy_list force p.to_destrory p.heap
  some (record p { to_destrory = kept; heap = heap })

-- The last lines of `open`: the time of use, and the virtual `open` of the client.
unfoldable pub open_client : (ℕ → Pool → Option Pool) → ℕ → Option ℕ → Pool → Option Pool
open_client client_open now none p = some p
open_client client_open now (some a) p = do
  c ← p.heap a
  client_open a (record p { heap = update p.heap a (some (record c { last_use = now })) })

unfoldable pub open_pool : (ℕ → Pool → Option Pool) → ℕ → ℕ → Pool → Option (Pool × Option ℕ)
open_pool client_open fresh now p = do
  p1 ← destroy_clients false p
  (p2, c) ← open_locked fresh now p1
  p3 ← open_client client_open now c p2
  some (p3, c)

-- `on_client_closing`; the null client is `none`.
unfoldable pub on_client_closing : Option ℕ → ℕ → Pool → Option Pool
on_client_closing none event p = some p
on_client_closing (some a) event p =
    if event == event_type_closeing
    then (do
      c ← p.heap a
      if c.connected
          then some (record p { lent = set_erase a p.lent; idle = set_insert a p.idle })
          else some (record p {
            lent = set_erase a p.lent;
            to_destrory = p.to_destrory ++ (a ∷ []);
            state_bag = replace_client_id c.id 0 p.state_bag;
          }))
    else some p

-- `ZkClient::close`, with the call that `SEvent::invoke` makes.
unfoldable pub close : ℕ → Pool → Option Pool
unfolding on_client_closing set_in_using
close a p = do
  c ← p.heap a
  let p' = record p { heap = update p.heap a (some (set_in_using false c)) }
  if c.has_event then on_client_closing (some a) event_type_closeing p' else some p'

-- The first part of `reset`, under the lock.
unfoldable pub retire_all : Pool → Pool
retire_all p = record p {
  lent = [];
  idle = [];
  to_destrory = p.to_destrory ++ (p.lent ++ p.idle);
  state_bag = reset_client_id p.state_bag;
}

-- The wait of `reset`, for the rounds that fit into the waiting time, with no other thread at work.
unfoldable pub destroy_rounds : ℕ → Pool → Option Pool
unfolding destroy_clients
destroy_rounds zero p = some p
destroy_rounds (suc n) p = elim (length p.to_destrory == 0) [
  | true ↦ some p
  | false ↦ do p' ← destroy_clients false p; destroy_rounds n p'
]

-- `reset`, and `clear`.
unfoldable pub reset : ℕ → Pool → Option Pool
unfolding retire_all destroy_rounds
reset rounds p = do p' ← destroy_rounds rounds (retire_all p); destroy_clients true p'

-- `set_max_client`, which tests the old bound.
unfoldable pub set_max_client : ℤ → Pool → Pool
set_max_client max p = if ltb_ℤ (pos 0) p.max_client then record p { max_client = max } else p

unfoldable pub set_used_timeout : ℤ → Pool → Pool
set_used_timeout timeout_in_ms p =
    if ltb_ℤ (pos 0) timeout_in_ms then record p { used_timeout = pos_part timeout_in_ms } else p
