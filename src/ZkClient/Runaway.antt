-- ===== src/ZkClient/Runaway.antt =====
-- `connect_zk` of core/ZkClient.cpp when each new session is lost again at once.
use sfproxy.Prelude.{
  ℕ, zero, suc, ◌≡◌, refl, ap, ◌∙◌, true, false, Option, none, some, [], ◌∷◌, arith, ◌>>=◌, Str,
  str_eq, str_eq_iff, str_eq_refl,
}
use sfproxy.Json.{Rapidjson}
use sfproxy.Zookeeper.{Zookeeper, connected_state_def, zinvalidstate}
use sfproxy.OrderedMap.{find, modify}
use sfproxy.Decimal.{show_ℕ}
use sfproxy.StateBag.{
  StateBag, ZkState, key, create_key, set_client_id, replace_client_id_of, k_type_get_service,
}
use sfproxy.StateBag
use sfproxy.ZkClient.{
  ZkClient, connect_tries, save_state, on_session_timeout, set_connected, wget_children,
}
use sfproxy.ZkClient.Calls.{ensure, service_read, get_service}
use sfproxy.ZkClient.Connect.{
  keys_of, dropping, restore_state, take_over_states, restore_states, linked, connected_zk,
  connect_zk,
}
use sfproxy.ZkClient.Healthy.{
  bind_known, ensure-true, moved, wget_children_linked, elim_true, elim_false,
}

-- The watch of a service by the client with an id, and a bag of two of them.
abbrev pub service_watch : ℕ → Str → ZkState
service_watch id path = record { client_id = id; type = k_type_get_service; path = path; text = [] }

abbrev pub two_services : ℕ → Str → Str → StateBag
two_services id p q = (b'1' ∷ p, service_watch id p) ∷ (b'1' ∷ q, service_watch id q) ∷ []

module _ (id : ℕ) (p q : Str) (apart : str_eq p q ≡ false) where
  find_first : find (b'1' ∷ p) (two_services id p q) ≡ some (service_watch id p)
  unfolding find str_eq
  find_first = rw (str_eq_refl p) refl

  find_second : find (b'1' ∷ q) (two_services id p q) ≡ some (service_watch id q)
  unfolding find str_eq
  find_second = rw (apart, str_eq_refl q) refl

  keep_first : replace_client_id_of (b'1' ∷ p) id (two_services id p q) ≡ two_services id p q
  unfolding replace_client_id_of modify str_eq
  keep_first = ground (arith, str_eq_refl p, str_eq_iff p q, str_eq_iff q p)

  keep_second : replace_client_id_of (b'1' ∷ q) id (two_services id p q) ≡ two_services id p q
  unfolding replace_client_id_of modify str_eq
  keep_second = ground (arith, str_eq_refl q, str_eq_iff p q, str_eq_iff q p)

  add_first : StateBag.add (service_watch id p) (two_services id p q) ≡ two_services id p q
  unfolding StateBag.add modify find str_eq key create_key show_ℕ
  add_first = ground (arith, str_eq_refl p, str_eq_iff p q, str_eq_iff q p)

  keys_two : keys_of id (two_services id p q) ≡ (b'1' ∷ p) ∷ (b'1' ∷ q) ∷ []
  unfolding keys_of
  keys_two = ground arith

bind_none {ℓ κ} :
    {A : Type ℓ} {B : Type κ} (o : Option A) (f : A → Option B) → o ≡ none → (o >>= f) ≡ none
bind_none o f e = ap (λ p. p >>= f) e

-- A client that has lost its session, with two services to watch.
pub record IsLost (Z : Zookeeper) (id : ℕ) (p q : Str) (c : ZkClient Z) : Type 0 where
  pub down : c.connected ≡ false
  pub same : c.id ≡ id
  pub bag : c.states ≡ two_services id p q

module _ (Z : Zookeeper) (J : Rapidjson) (now id : ℕ) (p q : Str) (apart : str_eq p q ≡ false)
    (loses : (path : Str) (w : Z.World) → (Z.zoo_wget_children path w).1 ≡ zinvalidstate) where
  after : ZkClient Z → ZkClient Z
  after c =
      on_session_timeout Z
        (save_state Z p k_type_get_service [] (moved Z (Z.zoo_wget_children p c.world).0 c))

  after-IsLost :
      (c : ZkClient Z) → c.id ≡ id → c.states ≡ two_services id p q → IsLost Z id p q (after c)
  unfolding on_session_timeout set_connected save_state after
  after-IsLost c same bag = record {
    down = refl;
    same = same;
    bag = rw (same, bag) (add_first id p q apart);
  }

  read_lost :
      (connect : ZkClient Z → Option (ZkClient Z)) (c : ZkClient Z)
      → c.handle ≡ true
      → service_read Z J now connect p (wget_children Z p c) ≡ some (after c, false)
  unfolding service_read after
  read_lost connect c handle =
      ap (service_read Z J now connect p) (wget_children_linked Z p c handle)
      ∙ rw (loses p c.world) refl

  get_lost :
      (connect : ZkClient Z → Option (ZkClient Z)) (c : ZkClient Z)
      → c.connected ≡ true
      → c.handle ≡ true
      → get_service Z J now connect p c ≡ some (after c, false)
  unfolding get_service
  get_lost connect c up handle =
      bind_known _ _ (c, true) (ensure-true Z J now connect c up) ∙ read_lost connect c handle

  ensure-none :
      (connect : ZkClient Z → Option (ZkClient Z)) (c : ZkClient Z)
      → c.connected ≡ false
      → connect c ≡ none
      → ensure Z J now connect c ≡ none
  unfolding ensure
  ensure-none connect c down never = elim_false c.connected _ _ down ∙ bind_none _ _ never

  get_none :
      (connect : ZkClient Z → Option (ZkClient Z)) (path : Str) (c : ZkClient Z)
      → c.connected ≡ false
      → connect c ≡ none
      → get_service Z J now connect path c ≡ none
  unfolding get_service
  get_none connect path c down never = bind_none _ _ (ensure-none connect c down never)

  restore_service :
      (connect : ZkClient Z → Option (ZkClient Z)) (path : Str) (c : ZkClient Z)
      → restore_state Z J now connect (service_watch id path) c
        ≡ dropping (get_service Z J now connect path c)
  unfolding restore_state
  restore_service connect path c = refl

  -- With a `connect` that does not return for a lost client, the second watch does not return.
  second_none :
      (connect : ZkClient Z → Option (ZkClient Z))
      → ((c : ZkClient Z) → IsLost Z id p q c → connect c ≡ none)
      → (c : ZkClient Z) → IsLost Z id p q c
      → take_over_states Z J now connect ((b'1' ∷ q) ∷ []) c ≡ none
  unfolding take_over_states
  second_none connect never c lost =
      let found : find (b'1' ∷ q) c.states ≡ some (service_watch id q) =
        rw lost.bag (find_second id p q apart) in
      let d : ZkClient Z = record c { states = replace_client_id_of (b'1' ∷ q) c.id c.states } in
      let kept : IsLost Z id p q d = record {
        down = lost.down;
        same = lost.same;
        bag = rw (lost.same, lost.bag) (keep_second id p q apart);
      } in
      bind_known _ _ (service_watch id q) found
      ∙ bind_none _ _ (
          restore_service connect q d ∙ ap dropping (get_none connect q d lost.down (never d kept)))

  first_none :
      (connect : ZkClient Z → Option (ZkClient Z))
      → ((c : ZkClient Z) → IsLost Z id p q c → connect c ≡ none)
      → (c : ZkClient Z) → c.connected ≡ true
      → c.handle ≡ true
      → c.id ≡ id
      → c.states ≡ two_services id p q
      → restore_states Z J now connect c ≡ none
  unfolding take_over_states restore_states
  first_none connect never c up handle same bag =
      let found : find (b'1' ∷ p) c.states ≡ some (service_watch id p) =
        rw bag (find_first id p q apart) in
      let d : ZkClient Z = record c { states = replace_client_id_of (b'1' ∷ p) c.id c.states } in
      let kept : d.states ≡ two_services id p q = rw (same, bag) (keep_first id p q apart) in
      let keys : keys_of c.id c.states ≡ (b'1' ∷ p) ∷ (b'1' ∷ q) ∷ [] =
        rw (same, bag) (keys_two id p q apart) in
      let first : restore_state Z J now connect (service_watch id p) d ≡ some (after d) =
        restore_service connect p d ∙ ap dropping (get_lost connect d up handle) in
      bind_none _ _ (
        ap (λ ks. take_over_states Z J now connect ks c) keys
        ∙ bind_known _ _ (service_watch id p) found
        ∙ bind_known _ _ (after d) first
        ∙ second_none connect never (after d) (after-IsLost d same kept))

  tries_succeed :
      (n : ℕ) (w : Z.World)
      → (Z.zookeeper_init w).1 ≡ some connected_state_def
      → (connect_tries Z (suc n) w).1 ≡ true
  unfolding connect_tries
  tries_succeed n w e = rw (e, connect_tries) refl

  -- A client that has lost its session, with two services to watch, and a ZooKeeper to which it can
  -- always connect but whose sessions are lost at the next reading of a service: `connect_zk` does
  -- not return, however deep it calls itself.
  pub connect_zk-runs_away :
      (fuel : ℕ) (c : ZkClient Z)
      → ((w : Z.World) → (Z.zookeeper_init w).1 ≡ some connected_state_def)
      → IsLost Z id p q c
      → connect_zk Z J now fuel c ≡ none
  unfolding connect_zk connected_zk linked set_connected
  connect_zk-runs_away zero c connects lost = refl
  connect_zk-runs_away (suc fuel) c connects lost =
      elim_false c.connected _ _ lost.down
      ∙ elim_true (connect_tries Z 11 c.world).1 _ _ (tries_succeed 10 c.world (connects c.world))
      ∙ first_none (connect_zk Z J now fuel) (λ d l. connect_zk-runs_away fuel d connects l)
          (linked Z J now (connect_tries Z 11 c.world).0 c) refl refl lost.same lost.bag
