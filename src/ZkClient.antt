-- ===== src/ZkClient.antt =====
-- core/ZkClient.h and core/ZkClient.cpp: a ZooKeeper client that reads services into the cache and
-- keeps its watches in the shared states. A result of `none` is a process that ends: a failed
-- assertion of rapidjson, a read past the end of a buffer, a read of a state that was deleted, or a
-- recursion of `connect_zk` deeper than the fuel.
pub mod Calls
pub mod Connect
pub mod Watchers
pub mod Validity
pub mod Survival
pub mod Healthy
pub mod Restore
pub mod Handover
pub mod Paths
pub mod Runaway
pub mod Events
pub mod Rereads
pub mod Follow
pub mod Upkeep
pub mod Refresh
pub mod RefreshAll
pub mod Tests
use sfproxy.Prelude.{
  ℕ, zero, suc, ◌+◌, ◌-◌, ◌*◌, ◌/◌, ◌%◌, ◌^◌, ◌≤◌, ◌<◌, ◌≡◌, refl, sym, ap, ◌∙◌, subst, ◌≢◌, ◌↔◌,
  ◌⊎◌, inl, inr, Bool, true, false, ◌&&◌, ◌||◌, not, Option, none, some, List, [], ◌∷◌, ◌++◌, map,
  arith, ltb, leb, ◌==◌, if◌then◌else◌, ◌>>=◌, ◌>>◌, ltb→lt, lt→ltb, ltb-false, ==_iff, Bool-cases,
  Option-cases, length, length-append, keep_if, length-keep_if-le, keep_if-append, All, All-append,
  All-keep_if, Str, codes, str_eq, str_lt, str_eq_iff, str_eq_refl, ℤ, pos, negsuc, pos_part,
  neg_part, sub_ℕ, ◌+ℤ◌, ltb_ℤ, eq_ℤ,
}
use sfproxy.Decimal.{atol}
use sfproxy.Json.{Rapidjson}
use sfproxy.Zookeeper.{
  Zookeeper, zok, zconnectionloss, zinvalidstate, znonode, znodeexists, connected_state_def,
}
use sfproxy.OrderedMap.{find, keys}
use sfproxy.Registry.{Registry, empty_registry, as_string, to_int32}
use sfproxy.Cache.{RegistryCache, remove_name}
use sfproxy.Cache
use sfproxy.StateBag.{
  StateBag, ZkState, key, new_state, replace_client_id_of, get_by_client, k_type_create_ephereral,
  k_type_get_service, k_type_get_service_instance, k_type_get_root,
}
use sfproxy.StateBag

abbrev pub k_max_connect_retry_times : ℕ
k_max_connect_retry_times = 10

abbrev pub buffer_size : ℕ
buffer_size = 256

-- `string(buffer)` of a buffer of zeros into which the node's data was copied: up to the first zero,
-- which is missing if the data fills the buffer.
unfoldable pub c_string : ℕ → Str → Option Str
c_string zero text = none
c_string (suc room) [] = some []
c_string (suc room) (c ∷ text) =
    let rest = c_string room text in if c == 0 then some [] else (do s ← rest; some (c ∷ s))

module _ (J : Rapidjson) where
  open J use {
    Value, parse, has_parse_error, is_object, is_int, is_string, member, get_int, get_string,
  }

  -- The port of an endpoint: it stays 0 unless it is a number or a text.
  unfoldable pub endpoint_port : Value → Registry → Registry
  unfolding to_int32 atol
  endpoint_port p r =
      if is_int p
      then record r { port = get_int p }
      else if is_string p
      then record r { port = to_int32 (atol (get_string p)) }
      else r

  unfoldable pub from_endpoint : Option Value → Option Value → Registry → Option Registry
  unfolding as_string endpoint_port
  from_endpoint (some h) (some p) r = do
    host ← as_string J h
    some (endpoint_port p (record r { host = host }))
  from_endpoint _ _ r = some r

  -- The reading of a node's data into an instance.
  unfoldable pub from_node : Str → Registry → Option Registry
  unfolding from_endpoint
  from_node s r =
      let d = parse s in
      if has_parse_error d
      then some r
      else if is_object d
      then (elim (member d (codes "serviceEndpoint")) [
        | none ↦ some r
        | some v ↦
            if is_object v
            then from_endpoint (member v (codes "host")) (member v (codes "port")) r
            else some r
      ])
      else none

module _ (Z : Zookeeper) where
  open Z use {
    World, zookeeper_init, zoo_wget, zoo_wget_children, zoo_get, zoo_get_children, zoo_create,
  }

  -- A client, with the cache and the states that the factory gives it.
  pub record ZkClient : Type 0 where
    pub id : ℕ
    pub connected : Bool
    -- Whether `zhandle_` is set.
    pub handle : Bool
    pub session_id : ℕ
    pub cache : RegistryCache
    pub states : StateBag
    pub world : World

  unfoldable pub set_connected : Bool → ZkClient → ZkClient
  set_connected connected c = record c { connected = connected }

  unfoldable pub on_session_timeout : ZkClient → ZkClient
  unfolding set_connected
  on_session_timeout c = set_connected false c

  unfoldable pub save_state : Str → ℕ → Str → ZkClient → ZkClient
  save_state path type text c = record c {
    states =
        StateBag.add (record { client_id = c.id; type = type; path = path; text = text }) c.states;
  }

  unfoldable pub remove_state : Str → ℕ → ZkClient → ZkClient
  remove_state path type c = record c { states = StateBag.remove (new_state path type) c.states }

  -- The tries of `connect_zk`; a handle that is not connected is closed again.
  unfoldable pub connect_tries : ℕ → World → World × Bool
  connect_tries zero w = (w, false)
  connect_tries (suc n) w =
      let (w', state) = zookeeper_init w in
      elim state [
        | none ↦ connect_tries n w'
        | some z ↦ elim (eq_ℤ z connected_state_def) [
          | true ↦ (w', true)
          | false ↦ connect_tries n w'
        ]
      ]

  -- Calls that need the handle, else ZINVALIDSTATE.
  unfoldable pub wget : Str → ZkClient → ZkClient × ℤ × Str × ℕ
  wget path c =
      if c.handle
      then (let (w, result, text, ctime) = zoo_wget path c.world in
          (record c { world = w }, result, text, ctime))
      else (c, zinvalidstate, [], 0)

  unfoldable pub wget_children : Str → ZkClient → ZkClient × ℤ × List Str
  wget_children path c =
      if c.handle
      then (let (w, result, names) = zoo_wget_children path c.world in
          (record c { world = w }, result, names))
      else (c, zinvalidstate, [])

  unfoldable pub create_node : Str → Str → Bool → ZkClient → ZkClient × ℤ
  create_node path text ephemeral c =
      if c.handle
      then (let (w, result) = zoo_create path text ephemeral c.world in
          (record c { world = w }, result))
      else (c, zinvalidstate)

  unfoldable pub get_node : Str → ZkClient → ZkClient × ℤ × Str
  get_node path c =
      if c.handle
      then (let (w, result, text) = zoo_get path c.world in (record c { world = w }, result, text))
      else (c, zinvalidstate, [])

  unfoldable pub list_node : Str → ZkClient → ZkClient × ℤ × List Str
  list_node path c =
      if c.handle
      then (let (w, result, names) = zoo_get_children path c.world in
          (record c { world = w }, result, names))
      else (c, zinvalidstate, [])
