-- ===== src/Registry.antt =====
-- core/Registry.h and core/Registry.cpp: one instance of a service, its weight, and its text.
-- Clock readings are arguments: `now` in milliseconds, `time_0` in seconds.
pub mod Weight
pub mod Text
pub mod Layout
pub mod Reader
pub mod Abort
pub mod Tests
use sfproxy.Prelude.{
  ℕ, zero, suc, ◌+◌, ◌-◌, ◌*◌, ◌/◌, ◌%◌, ◌^◌, ◌≤◌, ◌<◌, ◌≡◌, refl, sym, ap, ◌∙◌, subst, ◌≢◌, ◌↔◌,
  ◌⊎◌, inl, inr, Bool, true, false, ◌&&◌, ◌||◌, not, Option, none, some, List, [], ◌∷◌, ◌++◌, map,
  arith, ltb, leb, ◌==◌, if◌then◌else◌, ◌>>=◌, ltb→lt, lt→ltb, ltb-false, ==_iff, Bool-cases,
  Option-cases, length, length-append, keep_if, length-keep_if-le, keep_if-append, All, All-append,
  All-keep_if, Str, codes, str_eq, str_lt, str_eq_iff, str_eq_refl, ℤ, pos, negsuc, pos_part,
  neg_part, sub_ℕ, ◌+ℤ◌, ltb_ℤ, eq_ℤ,
}
use sfproxy.Decimal.{show_ℕ, show_ℤ, atol}
use sfproxy.Json.{Rapidjson}

pub record Registry : Type 0 where
  pub name : Str
  pub host : Str
  pub port : ℤ
  pub ctime : ℕ
  pub mtime : ℕ
  pub ephemeral : Str
  pub json : Str

-- `Registry()`.
unfoldable pub empty_registry : ℕ → Registry
empty_registry now = record {
  name = [];
  host = [];
  port = pos 0;
  ctime = 0;
  mtime = now;
  ephemeral = [];
  json = [];
}

-- `Registry(name, host, port)`.
unfoldable pub new_registry : Str → Str → ℤ → ℕ → Registry
new_registry name host port now = record {
  name = name;
  host = host;
  port = port;
  ctime = 0;
  mtime = now;
  ephemeral = [];
  json = [];
}

abbrev pub is_empty : Str → Bool
is_empty [] = true
is_empty (c ∷ s) = false

unfoldable pub check : Registry → Bool
check r = not (is_empty r.name) && not (is_empty r.host) && ltb_ℤ (pos 0) r.port

-- `long elapse = time(0) - ctime`: the difference is taken modulo 2^64 and read as signed.
unfoldable pub elapse : ℕ → ℕ → ℤ
elapse time_0 ctime =
    let d = (time_0 + 2 ^ 64 - ctime) % 2 ^ 64 in
    if ltb d (2 ^ 63) then pos d else negsuc (2 ^ 64 - 1 - d)

unfoldable pub weight_of : ℤ → ℕ
weight_of (pos e) = if ltb e 294 && ltb 0 e then 1200 + e * e / 36 else 3600
weight_of (negsuc e) = 3600

unfoldable pub weight : ℕ → Registry → ℕ
unfolding elapse weight_of
weight time_0 r = weight_of (elapse time_0 r.ctime)

-- `equals`, `operator==` and the global operators: the same object has the same fields.
unfoldable pub equals : Registry → Registry → Bool
equals a b = str_eq a.name b.name && str_eq a.host b.host && eq_ℤ a.port b.port

-- `Registry::serialize(Registry&)`.
unfoldable pub serialize : ℕ → Registry → Str
unfolding show_ℤ
serialize time_0 r =
    codes "{\"name\":\""
    ++ (r.name
        ++ (codes "\",\"host\":\""
            ++ (r.host
                ++ (codes "\",\"port\":"
                    ++ (show_ℤ r.port
                        ++ (codes ",\"weight\":" ++ (show_ℕ (weight time_0 r) ++ codes " }")))))))

-- `Registry::serialize(vector<Registry>&)`: a separator unless only the bracket stands there.
unfoldable pub serialize_loop : ℕ → Str → List Registry → Str
serialize_loop time_0 ret [] = ret
serialize_loop time_0 ret (r ∷ rs) =
    serialize_loop time_0
      ((if ltb 2 (length ret) then ret ++ codes ",\n" else ret) ++ serialize time_0 r) rs

unfoldable pub serialize_all : ℕ → List Registry → Str
unfolding serialize_loop
serialize_all time_0 v = serialize_loop time_0 (codes "[") v ++ codes "]"

-- A number kept in an `int`.
unfoldable pub to_int32 : ℤ → ℤ
to_int32 z =
    let b = (pos_part z + (2 ^ 32 - neg_part z % 2 ^ 32)) % 2 ^ 32 in
    if ltb b (2 ^ 31) then pos b else negsuc (2 ^ 32 - 1 - b)

-- `unserialize`. The outer `none` is a failed assertion of rapidjson, which ends the process.
module _ (J : Rapidjson) where
  open J use {
    Value, parse, is_array, is_object, is_int, is_string, elements, member, get_int, get_string,
  }

  -- `v.GetString()`.
  unfoldable pub as_string : Value → Option Str
  as_string v = if is_string v then some (get_string v) else none

  -- The port is a number or a text; an element with any other is skipped.
  unfoldable pub with_port : Registry → Value → Option Registry
  unfolding to_int32 atol
  with_port r p =
      if is_int p
      then some (record r { port = get_int p })
      else if is_string p
      then some (record r { port = to_int32 (atol (get_string p)) })
      else none

  unfoldable pub from_members :
      ℕ → Option Value → Option Value → Option Value → Option (Option Registry)
  unfolding as_string with_port
  from_members now (some n) (some h) (some p) = do
    name ← as_string n
    host ← as_string h
    some (with_port (record (new_registry name host (pos 0) now) { ctime = now }) p)
  from_members now _ _ _ = some none

  unfoldable pub unserialize_element : ℕ → Value → Option (Option Registry)
  unfolding from_members new_registry
  unserialize_element now v =
      if is_object v
      then from_members now (member v (codes "name")) (member v (codes "host"))
          (member v (codes "port"))
      else none

  abbrev pub cons_some : Option Registry → List Registry → List Registry
  cons_some none rs = rs
  cons_some (some r) rs = r ∷ rs

  unfoldable pub unserialize_elements : ℕ → List Value → Option (List Registry)
  unfolding unserialize_element
  unserialize_elements now [] = some []
  unserialize_elements now (v ∷ vs) = do
    r ← unserialize_element now v
    rs ← unserialize_elements now vs
    some (cons_some r rs)

  unfoldable pub unserialize : ℕ → Str → Option (List Registry)
  unfolding unserialize_elements
  unserialize now s =
      let d = parse s in if is_array d then unserialize_elements now (elements d) else some []
