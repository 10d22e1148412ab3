-- ===== src/ZkClient/Restore.antt =====
-- `restore_states` and `connect_zk` of core/ZkClient.cpp while ZooKeeper keeps the session.
use sfproxy.Prelude.{
  ℕ, suc, ◌≡◌, refl, sym, ◌∙◌, subst, inl, inr, Bool, true, false, Option, some, List, [], ◌∷◌,
  if◌then◌else◌, Bool-cases, All, Str,
}
use sfproxy.Json.{Rapidjson}
use sfproxy.Zookeeper.{Zookeeper}
use sfproxy.OrderedMap.{find}
use sfproxy.StateBag.{StateBag, ZkState, replace_client_id_of}
use sfproxy.ZkClient.{ZkClient, connect_tries, set_connected}
use sfproxy.ZkClient.Connect.{
  keys_of, take_over_states, restore_states, linked, unlinked, connected_zk, connect_zk,
}
use sfproxy.ZkClient.Upkeep.{restore_state-IsUp}
use sfproxy.ZkClient.Healthy.{
  Sure, Tends, Tends-refl, Tends-trans, Tends-modify, IsHealthy, IsUp, elim_true, elim_false,
}
use sfproxy.ZkClient.Handover.{
  IsWatched, IsOwned, Tends-IsWatched, Tends-IsOwned, keys_of-IsWatched, owned_in, set-IsOwned,
  Restored, Restored-by, owner_of,
}

module _ (Z : Zookeeper) (J : Rapidjson) (healthy : IsHealthy Z J) (now : ℕ)
    (connect : ZkClient Z → Option (ZkClient Z)) where
  abbrev TakenOver : ℕ → StateBag → List Str → ZkClient Z → Type 0
  TakenOver id b ks c = IsUp Z id b c × All (IsOwned id c.states) ks

  take_over_states-Sure :
      (id : ℕ) (ks : List Str) (c : ZkClient Z)
      → IsUp Z id c.states c
      → All (IsWatched c.states) ks
      → Sure (TakenOver id c.states ks) (take_over_states Z J now connect ks c)
  unfolding take_over_states
  take_over_states-Sure id [] c h w = (c, refl, (h, tt))
  take_over_states-Sure id (k ∷ ks) c h ((s, e), w) =
      let c1 : ZkClient Z = record c { states = replace_client_id_of k c.id c.states } in
      let t1 : Tends id c.states c1.states = rw h.same (Tends-modify id k c.states) in
      let (d, f, u) =
        restore_state-IsUp Z J healthy now connect id c1.states s c1 (record {
          up = h.up;
          linked = h.linked;
          same = h.same;
          tends = Tends-refl id c1.states;
        }) in
      let (x, g, (v, owned)) =
        take_over_states-Sure id ks d
          (record { up = u.up; linked = u.linked; same = u.same; tends = Tends-refl id d.states })
          (Tends-IsWatched id c.states d.states ks
            (Tends-trans id c.states c1.states d.states t1 u.tends) w) in
      (
        x,
        rw e (rw f g),
        (
          record {
            up = v.up;
            linked = v.linked;
            same = v.same;
            tends =
                Tends-trans id c.states d.states x.states
                  (Tends-trans id c.states c1.states d.states t1 u.tends) v.tends;
          },
          (
            Tends-IsOwned id c1.states x.states k
                (Tends-trans id c1.states d.states x.states u.tends v.tends)
                (set-IsOwned c.states k s e c.id id h.same),
            owned,
          ),
        ),
      )

  restore_states-Sure :
      (c : ZkClient Z) (k : Str) (s : ZkState)
      → c.connected ≡ true
      → c.handle ≡ true
      → find k c.states ≡ some s
      → (d : ZkClient Z) × (t : ZkState) × (restore_states Z J now connect c ≡ some d)
        × IsUp Z c.id c.states d
        × (find k d.states ≡ some t)
        × Restored c.id s t
  unfolding restore_states
  restore_states-Sure c k s up linked e =
      let (d, f, (v, owned)) =
        take_over_states-Sure c.id (keys_of c.id c.states) c
          (record { up = up; linked = linked; same = refl; tends = Tends-refl c.id c.states })
          (keys_of-IsWatched c.id c.states) in
      let (x, g, (w, freed)) =
        take_over_states-Sure c.id (keys_of 0 d.states) d
          (record { up = v.up; linked = v.linked; same = v.same; tends = Tends-refl c.id d.states })
          (keys_of-IsWatched 0 d.states) in
      let (m, there, middle) = v.tends k s e in
      let (t, found, last) = w.tends k m there in
      (
        x,
        t,
        rw f g,
        record {
          up = w.up;
          linked = w.linked;
          same = w.same;
          tends = Tends-trans c.id c.states d.states x.states v.tends w.tends;
        },
        found,
        Restored-by c.id s t
            (λ own. owner_of c.id x.states k t found (
              Tends-IsOwned c.id d.states x.states k w.tends
                (owned_in c.id (IsOwned c.id d.states) c.states k s e own owned)))
            (λ none_has. elim middle [
              | inl kept ↦
                  owner_of c.id x.states k t found
                    (owned_in 0 (IsOwned c.id x.states) d.states k m there (kept ∙ none_has) freed)
              | inr taken ↦ elim last [ inl l ↦ l ∙ taken | inr r ↦ r ]
            ])
            (elim last [
              | inr r ↦ inr r
              | inl l ↦ elim middle [ inl j ↦ inl (l ∙ j) | inr r ↦ inr (l ∙ r) ]
            ]),
      )

-- A watch of a client, before and after it connects.
abbrev pub Reconnected : ℕ → Bool → ZkState → ZkState → Type 0
Reconnected id up s t = if up then Restored id s t else t ≡ s

module _ (Z : Zookeeper) (J : Rapidjson) (healthy : IsHealthy Z J) (now fuel : ℕ) where
  connect_zk_down :
      (c : ZkClient Z)
      → c.connected ≡ false
      → connect_zk Z J now (suc fuel) c ≡ connected_zk Z J now (connect_zk Z J now fuel) c
  unfolding connect_zk
  connect_zk_down c down = elim_false c.connected _ _ down

  connected_zk_up :
      (c : ZkClient Z)
      → (connect_tries Z 11 c.world).1 ≡ true
      → connected_zk Z J now (connect_zk Z J now fuel) c
        ≡ restore_states Z J now
            (connect_zk Z J now fuel)
            (linked Z J now (connect_tries Z 11 c.world).0 c)
  unfolding connected_zk
  connected_zk_up c up = elim_true (connect_tries Z 11 c.world).1 _ _ up

  connected_zk_fail :
      (c : ZkClient Z)
      → (connect_tries Z 11 c.world).1 ≡ false
      → connected_zk Z J now (connect_zk Z J now fuel) c
        ≡ some (unlinked Z J now (connect_tries Z 11 c.world).0 c)
  unfolding connected_zk
  connected_zk_fail c fail = elim_false (connect_tries Z 11 c.world).1 _ _ fail

  -- While ZooKeeper keeps the session, the nodes that are asked for are there with data that can be
  -- read, and those that are created are not there yet: `connect_zk` of a client that is not connected
  -- returns at its first level of recursion. It is connected then exactly if one of its eleven tries
  -- succeeded, and each watch is still there: a watch that was the client's own or had no client is
  -- the client's own after a success; another has its client or this one; without a success none
  -- changes.
  pub connect_zk-returns :
      (c : ZkClient Z) (k : Str) (s : ZkState)
      → c.connected ≡ false
      → find k c.states ≡ some s
      → let up = (connect_tries Z 11 c.world).1 in
        (d : ZkClient Z) × (t : ZkState) × (connect_zk Z J now (suc fuel) c ≡ some d)
        × (d.connected ≡ up)
        × (d.handle ≡ up)
        × (find k d.states ≡ some t)
        × Reconnected c.id up s t
  unfolding linked unlinked set_connected
  connect_zk-returns c k s down e = elim (Bool-cases (connect_tries Z 11 c.world).1) [
    | inl up ↦
        let (d, t, f, v, found, own) =
          restore_states-Sure Z J healthy now (connect_zk Z J now fuel)
            (linked Z J now (connect_tries Z 11 c.world).0 c) k s refl refl e in
        (
          d,
          t,
          connect_zk_down c down ∙ connected_zk_up c up ∙ f,
          v.up ∙ sym up,
          v.linked ∙ sym up,
          found,
          subst (λ b. Reconnected c.id b s t) (sym up) own,
        )
    | inr fail ↦ (
      unlinked Z J now (connect_tries Z 11 c.world).0 c,
      s,
      connect_zk_down c down ∙ connected_zk_fail c fail,
      sym fail,
      sym fail,
      e,
      subst (λ b. Reconnected c.id b s s) (sym fail) refl,
    )
  ]
