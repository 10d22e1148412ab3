-- ===== src/Json.antt =====
-- rapidjson, as far as core/Registry.cpp and core/ZkClient.cpp call it. The library itself is a
-- vendored copy and stays a parameter of the model.
use sfproxy.Prelude.{Bool, Option, List, Str, ℤ}

pub record Rapidjson : Type 1 where
  pub Value : Type 0
  -- `Document::Parse<0>`; a document that does not parse is null, no array and no object.
  pub parse : Str → Value
  pub has_parse_error : Value → Bool
  pub is_array : Value → Bool
  pub is_object : Value → Bool
  pub is_int : Value → Bool
  pub is_string : Value → Bool
  -- `v[0]` to `v[v.Size() - 1]` of an array.
  pub elements : Value → List Value
  -- `FindMember` of an object: `HasMember` tells whether it is there, `v["name"]` is the value.
  pub member : Value → Str → Option Value
  pub get_int : Value → ℤ
  pub get_string : Value → Str
