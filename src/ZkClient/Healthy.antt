-- ===== src/ZkClient/Healthy.antt =====
-- What `connect_zk` and `restore_states` of core/ZkClient.cpp achieve while ZooKeeper keeps the session.
use sfproxy.Prelude.{
  ℕ, ◌≡◌, refl, sym, ap, ◌∙◌, subst, ◌⊎◌, inl, inr, Bool, true, false, Option, some, arith,
  if◌then◌else◌, ◌>>=◌, Bool-cases, Str, str_eq, str_eq_iff, eq_ℤ,
}
use sfproxy.Json.{Rapidjson}
use sfproxy.Zookeeper.{Zookeeper, zinvalidstate, znonode, znodeexists}
use sfproxy.OrderedMap.{find}
use sfproxy.OrderedMap.Laws.{find-modify}
use sfproxy.Registry.{Registry}
use sfproxy.StateBag.{
  StateBag, ZkState, key, set_client_id, replace_client_id_of, k_type_create_ephereral,
  k_type_get_service, k_type_get_service_instance, k_type_get_root,
}
use sfproxy.StateBag
use sfproxy.StateBag.Owners.{get-add_state}
use sfproxy.ZkClient.{ZkClient, buffer_size, c_string, from_node, wget, wget_children, create_node}
use sfproxy.ZkClient.Calls.{ensure}

-- There is a result, with a property.
abbrev pub Sure {ℓ κ} : {A : Type ℓ} → (A → Type κ) → Option A → Type (ℓ ⊔ κ)
Sure {A = A} P o = (a : A) × (o ≡ some a) × P a

pub Sure-bind {ℓ κ μ ν} :
    {A : Type ℓ} {B : Type κ} (P : A → Type μ) (Q : B → Type ν) (o : Option A) (f : A → Option B)
    → Sure P o
    → ((a : A) → P a → Sure Q (f a))
    → Sure Q (o >>= f)
Sure-bind P Q o f (a, e, h) k = rw e (k a h)

-- A step whose result is known.
pub bind_known {ℓ κ} :
    {A : Type ℓ} {B : Type κ} (o : Option A) (f : A → Option B) (a : A)
    → o ≡ some a
    → (o >>= f) ≡ f a
bind_known o f a e = ap (λ p. p >>= f) e

-- Every watch of the first bag is in the second, and its client is as before or the given one.
abbrev pub Tends : ℕ → StateBag → StateBag → Type 0
Tends id b b' =
    (k : Str) (s : ZkState)
    → find k b ≡ some s
    → (t : ZkState) × (find k b' ≡ some t) × ((t.client_id ≡ s.client_id) ⊎ (t.client_id ≡ id))

pub Tends-refl : (id : ℕ) (b : StateBag) → Tends id b b
Tends-refl id b k s e = (s, e, inl refl)

pub Tends-trans : (id : ℕ) (a b c : StateBag) → Tends id a b → Tends id b c → Tends id a c
Tends-trans id a b c x y k s e =
    let (t, f, own) = x k s e in
    let (u, g, last) = y k t f in
    (
      u,
      g,
      elim last [ inr i ↦ inr i | inl j ↦ elim own [ inl l ↦ inl (j ∙ l) | inr r ↦ inr (j ∙ r) ] ],
    )

pub Tends-add :
    (id : ℕ) (w : ZkState) (b : StateBag) → w.client_id ≡ id → Tends id b (StateBag.add w b)
unfolding StateBag.get
Tends-add id w b own k s e = elim (Bool-cases (str_eq (key w) k)) [
  | inl same ↦
      let there : find (key w) b ≡ some s =
        subst (λ j. find j b ≡ some s) (sym ((str_eq_iff (key w) k).0 same)) e in
      (set_client_id w.client_id s, get-add_state w b k ∙ rw (same, there) refl, inr own)
  | inr other ↦ (s, get-add_state w b k ∙ rw other e, inl refl)
]

pub Tends-modify : (id : ℕ) (j : Str) (b : StateBag) → Tends id b (replace_client_id_of j id b)
unfolding replace_client_id_of
Tends-modify id j b k s e = elim (Bool-cases (str_eq j k)) [
  | inl same ↦ (set_client_id id s, ground (arith, find-modify j k (set_client_id id) b), inr refl)
  | inr other ↦ (s, ground (arith, find-modify j k (set_client_id id) b), inl refl)
]

-- ZooKeeper keeps the session, the nodes that are asked for are there, those that are created are not,
-- and the data of each node can be read.
pub record IsHealthy (Z : Zookeeper) (J : Rapidjson) : Type 0 where
  pub wget_kept :
      (path : Str) (w : Z.World)
      → (eq_ℤ (Z.zoo_wget path w).1 znonode ≡ false)
        × (eq_ℤ (Z.zoo_wget path w).1 zinvalidstate ≡ false)
  pub readable :
      (path : Str) (w : Z.World)
      → (s : Str) × (c_string buffer_size (Z.zoo_wget path w).2 ≡ some s)
        × ((r : Registry) → (r' : Registry) × (from_node J s r ≡ some r'))
  pub children_kept :
      (path : Str) (w : Z.World)
      → (eq_ℤ (Z.zoo_wget_children path w).1 znonode ≡ false)
        × (eq_ℤ (Z.zoo_wget_children path w).1 zinvalidstate ≡ false)
  pub create_kept :
      (path text : Str) (e : Bool) (w : Z.World)
      → (eq_ℤ (Z.zoo_create path text e w).1 zinvalidstate ≡ false)
        × (eq_ℤ (Z.zoo_create path text e w).1 znodeexists ≡ false)

-- A connected client whose bag has come from another.
pub record IsUp (Z : Zookeeper) (id : ℕ) (b : StateBag) (c : ZkClient Z) : Type 0 where
  pub up : c.connected ≡ true
  pub linked : c.handle ≡ true
  pub same : c.id ≡ id
  pub tends : Tends id b c.states

pub if_true {ℓ} : {A : Type ℓ} (b : Bool) (x y : A) → b ≡ true → (if b then x else y) ≡ x
if_true true x y e = refl
if_true false x y e = cc

pub elim_true {ℓ} :
    {A : Type ℓ} (b : Bool) (x y : A) → b ≡ true → (elim b [ true ↦ x | false ↦ y ]) ≡ x
elim_true true x y e = refl
elim_true false x y e = cc

pub elim_false {ℓ} :
    {A : Type ℓ} (b : Bool) (x y : A) → b ≡ false → (elim b [ true ↦ x | false ↦ y ]) ≡ y
elim_false true x y e = cc
elim_false false x y e = refl

module _ (Z : Zookeeper) where
  abbrev pub moved : Z.World → ZkClient Z → ZkClient Z
  moved w c = record c { world = w }

  pub moved-IsUp :
      (id : ℕ) (b : StateBag) (w : Z.World) (c : ZkClient Z)
      → IsUp Z id b c
      → IsUp Z id b (moved w c)
  moved-IsUp id b w c h = record { up = h.up; linked = h.linked; same = h.same; tends = h.tends }

  pub wget_linked :
      (path : Str) (c : ZkClient Z)
      → c.handle ≡ true
      → let r = Z.zoo_wget path c.world in wget Z path c ≡ (moved r.0 c, r.1, r.2, r.3)
  unfolding wget
  wget_linked path c h = if_true c.handle _ _ h

  pub wget_children_linked :
      (path : Str) (c : ZkClient Z)
      → c.handle ≡ true
      → let r = Z.zoo_wget_children path c.world in wget_children Z path c ≡ (moved r.0 c, r.1, r.2)
  unfolding wget_children
  wget_children_linked path c h = if_true c.handle _ _ h

  pub create_node_linked :
      (path text : Str) (e : Bool) (c : ZkClient Z)
      → c.handle ≡ true
      → let r = Z.zoo_create path text e c.world in create_node Z path text e c ≡ (moved r.0 c, r.1)
  unfolding create_node
  create_node_linked path text e c h = if_true c.handle _ _ h

module _ (Z : Zookeeper) (J : Rapidjson) (now : ℕ)
    (connect : ZkClient Z → Option (ZkClient Z)) where
  pub ensure-true :
      (c : ZkClient Z) → c.connected ≡ true → ensure Z J now connect c ≡ some (c, true)
  unfolding ensure
  ensure-true c h = elim_true c.connected _ _ h
