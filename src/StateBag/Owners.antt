-- ===== src/StateBag/Owners.antt =====
-- Who owns the watches of a `StateBag` of core/ClientPool.cpp.
use sfproxy.Prelude.{
  ℕ, ◌+◌, ◌≡◌, refl, ◌∙◌, ◌≢◌, inl, inr, none, some, [], ◌∷◌, arith, ◌==◌, if◌then◌else◌,
  Option-cases, length, Str, str_eq, str_eq_iff,
}
use mathlib.Core.Option
use sfproxy.OrderedMap.{find, map_values}
use sfproxy.OrderedMap.Laws.{find-insert, find-modify, find-erase, find-map_values}
use sfproxy.StateBag.{
  ZkState, StateBag, key, add, remove, get, size, replace_client_id, reset_client_id, get_by_client,
  set_client_id, hand_over,
}

-- The number of watches of one client.
abbrev pub watches : ℕ → StateBag → ℕ
watches id bag = length (get_by_client id bag)

hand_over-counts :
    (a b c : ℕ) (bag : StateBag)
    → a ≢ b
    → c ≢ a
    → c ≢ b
    → let after = replace_client_id a b bag in
      (watches a after ≡ 0)
      × (watches b after ≡ watches b bag + watches a bag)
      × (watches c after ≡ watches c bag)
      × (size after ≡ size bag)
unfolding replace_client_id get_by_client size map_values
hand_over-counts a b c [] h k l = (refl, refl, refl, refl)
hand_over-counts a b c ((j, s) ∷ bag) h k l =
    let ih = hand_over-counts a b c bag h k l in ground arith

-- When the watches of one client go to another, the bag has a watch under the same keys as before: a
-- watch of the first client is the other's now, with the path, the type and the text that it had,
-- and every other watch is as it was. So the first client has none left, the other has both lots,
-- a third as many as before, and so has the bag.
pub replace_client_id-watches :
    (a b c : ℕ) (bag : StateBag)
    → a ≢ b
    → c ≢ a
    → c ≢ b
    → let after = replace_client_id a b bag in
      ((k : Str)
        → get k after
          ≡ Option.map
              (λ s. if s.client_id == a then record s { client_id = b } else s)
              (get k bag))
      × (watches a after ≡ 0)
      × (watches b after ≡ watches b bag + watches a bag)
      × (watches c after ≡ watches c bag)
      × (size after ≡ size bag)
unfolding replace_client_id get
replace_client_id-watches a b c bag h k l =
    let (none_left, both, own, many) = hand_over-counts a b c bag h k l in
    ((λ j. find-map_values j (hand_over a b) bag), none_left, both, own, many)

-- After a reset every watch is there, without a client, and else as it was.
pub get-reset_client_id :
    (k : Str) (bag : StateBag)
    → get k (reset_client_id bag)
      ≡ Option.map {A = ZkState} (λ s. record s { client_id = 0 }) (get k bag)
unfolding reset_client_id get
get-reset_client_id k bag = find-map_values k (set_client_id 0) bag

-- So none of the watches has an owner.
pub reset_client_id-watches :
    (a : ℕ) (bag : StateBag)
    → a ≢ 0
    → let after = reset_client_id bag in
      (watches 0 after ≡ size bag) × (watches a after ≡ 0) × (size after ≡ size bag)
unfolding reset_client_id get_by_client size map_values
reset_client_id-watches a [] h = (refl, refl, refl)
reset_client_id-watches a ((j, s) ∷ bag) h =
    let ih = reset_client_id-watches a bag h in ground arith

-- `add` makes the client of the state the owner of its watch. A watch that is there already keeps
-- its other fields, and every other watch stays as it was.
pub get-add_state :
    (s : ZkState) (bag : StateBag) (j : Str)
    → get j (add s bag) ≡ (
        if str_eq (key s) j
        then some (set_client_id s.client_id (Option.get_or (get (key s) bag) s))
        else get j bag)
unfolding get add
get-add_state s bag j = elim (Option-cases (find (key s) bag)) [
  | inl e ↦ rw (e, add) (find-insert (key s) j s bag ∙ rw e)
  | inr (w, e) ↦
      rw (e, add)
        (find-modify (key s) j (set_client_id s.client_id) bag
          ∙ ground (arith, str_eq_iff (key s) j))
]

-- `remove` takes out the watch with the key of the state, and no other.
pub get-remove_state :
    (s : ZkState) (bag : StateBag) (j : Str)
    → get j (remove s bag) ≡ (if str_eq (key s) j then none else get j bag)
unfolding get remove
get-remove_state s bag j = elim (Option-cases (find (key s) bag)) [
  | inl e ↦ rw (e, remove) (ground (arith, str_eq_iff (key s) j))
  | inr (w, e) ↦ rw (e, remove) (find-erase (key s) j bag)
]
