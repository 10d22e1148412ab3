-- ===== src/StateBag.antt =====
-- `StateBag` of core/ClientPool.h and core/ClientPool.cpp over the `ZkState` of core/ZkClient.h:
-- the ZooKeeper paths that are watched, each with the id of the client that watches it. A client id
-- of 0 means that no client does.
pub mod Key
pub mod Owners
pub mod Tests
use sfproxy.Prelude.{
  ℕ, zero, suc, ◌+◌, ◌-◌, ◌*◌, ◌/◌, ◌%◌, ◌^◌, ◌≤◌, ◌<◌, ◌≡◌, refl, sym, ap, ◌∙◌, subst, ◌≢◌, ◌↔◌,
  ◌⊎◌, inl, inr, Bool, true, false, ◌&&◌, ◌||◌, not, Option, none, some, List, [], ◌∷◌, ◌++◌, map,
  arith, ltb, leb, ◌==◌, if◌then◌else◌, ◌>>=◌, ◌>>◌, ltb→lt, lt→ltb, ltb-false, ==_iff, Bool-cases,
  Option-cases, length, length-append, keep_if, length-keep_if-le, keep_if-append, All, All-append,
  All-keep_if, Str, codes, str_eq, str_lt, str_eq_iff, str_eq_refl, ℤ, pos, negsuc, pos_part,
  neg_part, sub_ℕ, ◌+ℤ◌, ltb_ℤ, eq_ℤ,
}
use sfproxy.Decimal.{show_ℕ}
use sfproxy.OrderedMap
use sfproxy.OrderedMap.{Map, find, modify, map_values, values}

-- `ZkState`, with the `client_id` of its base `ClientState`.
pub record ZkState : Type 0 where
  pub client_id : ℕ
  pub type : ℕ
  pub path : Str
  pub text : Str

abbrev pub k_type_create_ephereral : ℕ
k_type_create_ephereral = 0

abbrev pub k_type_get_service : ℕ
k_type_get_service = 1

abbrev pub k_type_get_service_instance : ℕ
k_type_get_service_instance = 2

abbrev pub k_type_get_root : ℕ
k_type_get_root = 3

-- `create_key`.
unfoldable pub create_key : Str → ℕ → Str
unfolding show_ℕ
create_key path type = show_ℕ type ++ path

-- `key`.
unfoldable pub key : ZkState → Str
unfolding create_key
key s = create_key s.path s.type

-- `ZkState(path, type)`.
unfoldable pub new_state : Str → ℕ → ZkState
new_state path type = record { client_id = 0; type = type; path = path; text = [] }

-- `equals` and `match_path`.
unfoldable pub equals : ZkState → ZkState → Bool
equals s c = str_eq c.path s.path && c.type == s.type

unfoldable pub match_path : ZkState → ZkState → Bool
match_path s c = str_eq c.path s.path

abbrev pub StateBag : Type 0
StateBag = Map ZkState

abbrev pub set_client_id : ℕ → ZkState → ZkState
set_client_id id s = record s { client_id = id }

unfoldable pub size : StateBag → ℕ
size bag = length bag

-- `add`: a present state only takes over the client id.
unfoldable pub add : ZkState → StateBag → StateBag
unfolding key
add state bag = elim (find (key state) bag) [
  | none ↦ OrderedMap.insert (key state) state bag
  | some _ ↦ modify (key state) (set_client_id state.client_id) bag
]

unfoldable pub remove : ZkState → StateBag → StateBag
unfolding key
remove state bag = elim (find (key state) bag) [
  | none ↦ bag
  | some _ ↦ OrderedMap.erase (key state) bag
]

-- `get(key)`.
unfoldable pub get : Str → StateBag → Option ZkState
get k bag = find k bag

-- `replace_client_id(key, id)`.
unfoldable pub replace_client_id_of : Str → ℕ → StateBag → StateBag
replace_client_id_of k replace_to bag = modify k (set_client_id replace_to) bag

abbrev pub hand_over : ℕ → ℕ → ZkState → ZkState
hand_over client_id replace_to s =
    if s.client_id == client_id then set_client_id replace_to s else s

-- `replace_client_id(client_id, id)`.
unfoldable pub replace_client_id : ℕ → ℕ → StateBag → StateBag
replace_client_id client_id replace_to bag = map_values (hand_over client_id replace_to) bag

unfoldable pub reset_client_id : StateBag → StateBag
reset_client_id bag = map_values (set_client_id 0) bag

-- `get(client_id)`: the states of one client, in the order of the keys.
unfoldable pub get_by_client : ℕ → StateBag → List ZkState
get_by_client client_id bag = keep_if (λ s. s.client_id == client_id) (values bag)

unfoldable pub clear : StateBag → StateBag
clear bag = []
