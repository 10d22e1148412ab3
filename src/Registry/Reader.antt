-- ===== src/Registry/Reader.antt =====
-- A reader of the layout of core/Registry.cpp that stands in for rapidjson at concrete texts.
use sfproxy.Prelude.{
  ℕ, zero, suc, ◌+◌, ◌/◌, ◌%◌, ◌<◌, ◌≡◌, refl, ap, ◌∙◌, inl, inr, true, false, Option, none, some,
  List, [], ◌∷◌, ◌++◌, map, arith, ltb, ◌==◌, if◌then◌else◌, ◌>>=◌, Bool-cases, length,
  length-append, All, Str, codes, str_eq, ℤ, pos, negsuc, pos_part,
}
use mathlib.Core.List.{append_assoc}
use sfproxy.Json.{Rapidjson}
use sfproxy.Decimal.{digits_onto, show_ℕ, show_ℤ, atol}
use sfproxy.Decimal.Roundtrip.{atol-show_ℤ, atol-show_ℕ}
use sfproxy.Registry.Text.{join}
use sfproxy.Registry.Layout.{
  Item, item_text, items_text, IsPlain, IsPlainItem, ReadsItems, AllDenote,
}

-- The text after a prefix.
unfoldable pub strip : Str → Str → Option Str
strip [] s = some s
strip (c ∷ p) [] = none
strip (c ∷ p) (d ∷ s) = let rest = strip p s in if c == d then rest else none

-- The text before a byte, and the text from it on.
unfoldable pub until : ℕ → Str → Str × Str
until stop [] = ([], [])
until stop (c ∷ s) =
    let rest = until stop s in if c == stop then ([], c ∷ s) else (c ∷ rest.0, rest.1)

abbrev Free : ℕ → Str → Type 0
Free stop = All (λ c. (c == stop) ≡ false)

until_at :
    (stop : ℕ) (s t r : Str)
    → Free stop s
    → until stop ((s ++ (stop ∷ t)) ++ r) ≡ (s, stop ∷ (t ++ r))
unfolding until
until_at stop [] t r h = ground arith
until_at stop (c ∷ s) t r h = rw (h.0, until_at stop s t r h.1) refl

plain-Free : (s : Str) → IsPlain s → Free b'"' s
plain-Free [] h = tt
plain-Free (c ∷ s) h = (ground (arith, h.0.1), plain-Free s h.1)

digits-Free : (stop f n : ℕ) (s : Str) → stop < b'0' → Free stop s → Free stop (digits_onto f n s)
unfolding digits_onto
digits-Free stop zero n s lo h = h
digits-Free stop (suc f) n s lo h = elim (Bool-cases (ltb n 10)) [
  | inl small ↦ rw small (ground arith, h)
  | inr large ↦ rw large (digits-Free stop f (n / 10) ((b'0' + n % 10) ∷ s) lo (ground arith, h))
]

show-Free : (stop : ℕ) (z : ℤ) → stop < b'0' → (b'-' == stop) ≡ false → Free stop (show_ℤ z)
unfolding show_ℤ show_ℕ
show-Free stop (pos n) lo m = digits-Free stop (suc n) n [] lo tt
show-Free stop (negsuc n) lo m = (m, digits-Free stop (suc (suc n)) (suc n) [] lo tt)

show_ℕ-Free : (stop n : ℕ) → stop < b'0' → Free stop (show_ℕ n)
unfolding show_ℕ
show_ℕ-Free stop n lo = digits-Free stop (suc n) n [] lo tt

unfoldable pub read_item : Str → Option (Item × Str)
unfolding strip until atol
read_item s = do
  s1 ← strip (codes "{\"name\":\"") s
  let name = until b'"' s1
  s2 ← strip (codes "\",\"host\":\"") name.1
  let host = until b'"' s2
  s3 ← strip (codes "\",\"port\":") host.1
  let port = until b',' s3
  s4 ← strip (codes ",\"weight\":") port.1
  let weight = until b' ' s4
  s5 ← strip (codes " }") weight.1
  some (
    record { name = name.0; host = host.0; port = atol port.0; weight = pos_part (atol weight.0) },
    s5,
  )

read_item-item_text :
    (i : Item) (r : Str) → IsPlainItem i → read_item (item_text i ++ r) ≡ some (i, r)
unfolding read_item
read_item-item_text i r (n, h, p) = rw (until_at b'"' i.name _ r (plain-Free i.name n)) (
    rw (until_at b'"' i.host _ r (plain-Free i.host h)) (
      rw (until_at b',' (show_ℤ i.port) _ r (show-Free b',' i.port (omega arith) refl)) (
        rw (until_at b' ' (show_ℕ i.weight) _ r (show_ℕ-Free b' ' i.weight (omega arith)))
          (rw (atol-show_ℤ i.port, atol-show_ℕ i.weight) refl))))

-- The elements after the first bracket, of which there is at least one.
unfoldable pub read_list : ℕ → Str → Option (List Item)
unfolding read_item strip
read_list zero s = none
read_list (suc f) s = do
  (i, r) ← read_item s
  elim (strip (codes ",\n") r) [
    | some r' ↦ do is ← read_list f r'; some (i ∷ is)
    | none ↦ some (i ∷ [])
  ]

abbrev last_text : Str
last_text = codes "]"

after_item : (f : ℕ) (i : Item) (r : Str) → Option (List Item)
after_item f i r = elim (strip (codes ",\n") r) [
  | some r' ↦ do is ← read_list f r'; some (i ∷ is)
  | none ↦ some (i ∷ [])
]

read_list_step :
    (f : ℕ) (i : Item) (r : Str)
    → IsPlainItem i
    → read_list (suc f) (item_text i ++ r) ≡ after_item f i r
unfolding read_list after_item
read_list_step f i r p = ap (λ o. o >>= λ x. after_item f x.0 x.1) (read_item-item_text i r p)

more_items :
    (f : ℕ) (i : Item) (r : Str) (is : List Item)
    → read_list f r ≡ some is
    → after_item f i (codes ",\n" ++ r) ≡ some (i ∷ is)
unfolding after_item strip
more_items f i r is e = rw e refl

read_list-join :
    (f : ℕ) (i : Item) (is : List Item)
    → length is < f
    → All IsPlainItem (i ∷ is)
    → read_list f (join (codes ",\n") (map item_text (i ∷ is)) ++ last_text) ≡ some (i ∷ is)
unfolding join after_item strip
read_list-join zero i is h p = absurd (omega arith)
read_list-join (suc f) i [] h (p, _) = read_list_step f i last_text p
read_list-join (suc f) i (j ∷ is) h (p, ps) =
    let tail = join (codes ",\n") (map item_text (j ∷ is)) in
    ap (read_list (suc f)) (append_assoc (item_text i) (codes ",\n" ++ tail) last_text)
    ∙ read_list_step f i ((codes ",\n" ++ tail) ++ last_text) p
    ∙ more_items f i (tail ++ last_text) (j ∷ is) (read_list-join f j is (omega arith) ps)

length-join :
    (i : Item) (is : List Item)
    → length is < length (join (codes ",\n") (map item_text (i ∷ is)) ++ last_text)
unfolding join
length-join i [] = omega (arith, length-append (item_text i) last_text)
length-join i (j ∷ is) =
    let tail = join (codes ",\n") (map item_text (j ∷ is)) in
    omega (
      arith,
      length-append (item_text i ++ (codes ",\n" ++ tail)) last_text,
      length-append (item_text i) (codes ",\n" ++ tail),
      length-append tail last_text,
      length-join j is,
    )

pub data Doc : Type 0 where
  array : List Item → Doc
  object : Item → Doc
  text : Str → Doc
  number : ℤ → Doc
  nothing : Doc

abbrev pub doc_of : Option (List Item) → Doc
doc_of none = nothing
doc_of (some is) = array is

-- The empty array, or at least one element.
unfoldable pub read_doc : Str → Doc
unfolding strip read_list
read_doc s = elim (strip (codes "[") s) [
  | none ↦ nothing
  | some r ↦ elim (strip (codes "]") r) [
    | some _ ↦ array []
    | none ↦ doc_of (read_list (length r) r)
  ]
]

abbrev pub member_of : Doc → Str → Option Doc
member_of (object i) key =
    if str_eq key (codes "name")
    then some (text i.name)
    else if str_eq key (codes "host")
    then some (text i.host)
    else if str_eq key (codes "port")
    then some (number i.port)
    else if str_eq key (codes "weight")
    then some (number (pos i.weight))
    else none
member_of d key = none

abbrev pub layout_reader : Rapidjson
layout_reader = record {
  Value = Doc;
  parse = read_doc;
  has_parse_error = elim [ (nothing) ↦ true | _ ↦ false ];
  is_array = elim [ (array is) ↦ true | _ ↦ false ];
  is_object = elim [ (object i) ↦ true | _ ↦ false ];
  is_int = elim [ (number z) ↦ true | _ ↦ false ];
  is_string = elim [ (text s) ↦ true | _ ↦ false ];
  elements = elim [ (array is) ↦ map object is | _ ↦ [] ];
  member = member_of;
  get_int = elim [ (number z) ↦ z | _ ↦ pos 0 ];
  get_string = elim [ (text s) ↦ s | _ ↦ [] ];
}

some_items :
    (r : Str) (is : List Item)
    → strip (codes "]") r ≡ none
    → read_list (length r) r ≡ some is
    → read_doc (codes "[" ++ r) ≡ array is
unfolding read_doc strip
some_items r is n e = rw n (ap doc_of e)

not_closed :
    (i : Item) (is : List Item)
    → strip (codes "]") (join (codes ",\n") (map item_text (i ∷ is)) ++ last_text) ≡ none
unfolding strip join
not_closed i [] = refl
not_closed i (j ∷ is) = refl

read_doc-items_text : (is : List Item) → All IsPlainItem is → read_doc (items_text is) ≡ array is
unfolding read_doc join
read_doc-items_text [] h = unfold strip in refl
read_doc-items_text (i ∷ is) h =
    let r = join (codes ",\n") (map item_text (i ∷ is)) ++ last_text in
    some_items r (i ∷ is) (not_closed i is) (read_list-join (length r) i is (length-join i is) h)

AllDenote-objects : (is : List Item) → AllDenote layout_reader is (map object is)
unfolding str_eq
AllDenote-objects [] = tt
AllDenote-objects (i ∷ is) = (
  (
    refl,
    (text i.name, refl, refl, refl),
    (text i.host, refl, refl, refl),
    (number i.port, refl, refl, refl),
  ),
  AllDenote-objects is,
)

pub layout_reader-ReadsItems : ReadsItems layout_reader
layout_reader-ReadsItems = record {
  reads = λ is h. rw (read_doc-items_text is h) (refl, AllDenote-objects is);
}
