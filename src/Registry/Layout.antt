-- ===== src/Registry/Layout.antt =====
-- The JSON text of core/Registry.cpp as a layout of its own, what rapidjson makes of such a text, and
-- what `unserialize` makes of that.
use sfproxy.Prelude.{
  ℕ, ◌^◌, ◌≤◌, ◌<◌, ◌≡◌, refl, ap, ◌∙◌, ◌≢◌, true, some, List, [], ◌∷◌, ◌++◌, map, All, Str, codes,
  ℤ, pos_part, neg_part,
}
use sfproxy.Json.{Rapidjson}
use sfproxy.Decimal.{show_ℕ, show_ℤ}
use sfproxy.Registry.{
  Registry, weight, serialize, serialize_all, new_registry, unserialize_element,
  unserialize_elements, unserialize, from_members, with_port, as_string,
}
use sfproxy.Registry.Text.{join, serialize_all-join}

-- What an element of the text says.
pub record Item : Type 0 where
  pub name : Str
  pub host : Str
  pub port : ℤ
  pub weight : ℕ

abbrev pub item_text : Item → Str
item_text i =
    codes "{\"name\":\""
    ++ (i.name
        ++ (codes "\",\"host\":\""
            ++ (i.host
                ++ (codes "\",\"port\":"
                    ++ (show_ℤ i.port
                        ++ (codes ",\"weight\":" ++ (show_ℕ i.weight ++ codes " }")))))))

abbrev pub items_text : List Item → Str
items_text is = codes "[" ++ (join (codes ",\n") (map item_text is) ++ codes "]")

-- A text that JSON writes as it is: no control byte, no quote, no backslash.
abbrev pub IsPlain : Str → Type 0
IsPlain = All (λ c. (31 < c) × (c ≢ b'"') × (c ≢ b'\\'))

abbrev pub IsInt32 : ℤ → Type 0
IsInt32 z = (pos_part z < 2 ^ 31) × (neg_part z ≤ 2 ^ 31)

abbrev pub IsPlainItem : Item → Type 0
IsPlainItem i = IsPlain i.name × IsPlain i.host × IsInt32 i.port

-- What `unserialize` makes of an element.
abbrev pub registry_of : ℕ → Item → Registry
registry_of now i = record (new_registry i.name i.host i.port now) { ctime = now }

module _ (J : Rapidjson) where
  open J use {
    Value, parse, is_array, is_object, is_int, is_string, elements, member, get_int, get_string,
  }

  -- A member that is a text.
  abbrev pub HasText : Value → Str → Str → Type 0
  HasText v key text =
      (n : Value) × (member v key ≡ some n) × (is_string n ≡ true) × (get_string n ≡ text)

  abbrev pub HasInt : Value → Str → ℤ → Type 0
  HasInt v key z = (n : Value) × (member v key ≡ some n) × (is_int n ≡ true) × (get_int n ≡ z)

  abbrev pub Denotes : Item → Value → Type 0
  Denotes i v =
      (is_object v ≡ true)
      × HasText v (codes "name") i.name
      × HasText v (codes "host") i.host
      × HasInt v (codes "port") i.port

  abbrev pub AllDenote : List Item → List Value → Type 0
  AllDenote [] [] = Unit
  AllDenote [] (v ∷ vs) = ⊥
  AllDenote (i ∷ is) [] = ⊥
  AllDenote (i ∷ is) (v ∷ vs) = Denotes i v × AllDenote is vs

  -- rapidjson reads JSON: a text of this layout is the array of the objects that it writes down.
  pub record ReadsItems : Type 0 where
    pub reads :
        (is : List Item)
        → All IsPlainItem is
        → (is_array (parse (items_text is)) ≡ true)
          × AllDenote is (elements (parse (items_text is)))

  element_read :
      (now : ℕ) (i : Item) (v : Value)
      → Denotes i v
      → unserialize_element J now v ≡ some (some (registry_of now i))
  unfolding unserialize_element from_members with_port as_string new_registry
  element_read now i v (object, (n, en, sn, gn), (h, eh, sh, gh), (p, ep, ip, gp)) =
      rw (object, en, eh, ep) (rw (sn, sh, ip) (rw (gn, gh, gp) refl))

  elements_read :
      (now : ℕ) (is : List Item) (vs : List Value)
      → AllDenote is vs
      → unserialize_elements J now vs ≡ some (map (registry_of now) is)
  unfolding unserialize_elements
  elements_read now [] [] h = refl
  elements_read now [] (v ∷ vs) h = absurd h
  elements_read now (i ∷ is) [] h = absurd h
  elements_read now (i ∷ is) (v ∷ vs) (h, t) =
      rw (element_read now i v h, elements_read now is vs t) refl

  pub unserialize-items_text :
      (now : ℕ) (is : List Item)
      → ReadsItems
      → All IsPlainItem is
      → unserialize J now (items_text is) ≡ some (map (registry_of now) is)
  unfolding unserialize
  unserialize-items_text now is r h =
      let (array, each) = r.reads is h in
      rw array (elements_read now is (elements (parse (items_text is))) each)

abbrev pub item_of : ℕ → Registry → Item
item_of t r = record { name = r.name; host = r.host; port = r.port; weight = weight t r }

pub serialize_all-items_text :
    (t : ℕ) (v : List Registry) → serialize_all t v ≡ items_text (map (item_of t) v)
unfolding serialize
serialize_all-items_text t v =
    serialize_all-join t v ∙ ap (λ ts. codes "[" ++ (join (codes ",\n") ts ++ codes "]")) (texts v)
  where
    texts : (w : List Registry) → map (serialize t) w ≡ map item_text (map (item_of t) w)
    texts [] = refl
    texts (r ∷ w) = ap (λ ts. serialize t r ∷ ts) (texts w)
