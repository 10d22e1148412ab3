-- ===== src/Registry/Tests.antt =====
-- core/Registry.cpp at concrete instances, and a small stand-in for rapidjson.
use sfproxy.Prelude.{
  ◌≤◌, ◌≡◌, refl, ◌↔◌, ◌⊎◌, ◌+◌, inl, true, false, none, List, [], ◌∷◌, map, arith, codes, ℤ, pos,
}
use sfproxy.Json.{Rapidjson}
use sfproxy.Registry.{Registry, weight, serialize, serialize_all, unserialize}
use sfproxy.Registry.Weight.{weight_bounds, weight-eq-full_iff}
use sfproxy.Registry.Abort.{unserialize_abort}

abbrev search_a : Registry
search_a = record {
  name = codes "/soa/search";
  host = codes "10.0.0.1";
  port = pos 9009;
  ctime = 1000;
  mtime = 1000;
  ephemeral = codes "/soa/search/1";
  json = [];
}

weight_bounds_example : (1200 ≤ weight 1100 search_a) × (weight 1100 search_a ≤ 3600)
weight_bounds_example = weight_bounds 1100 search_a

weight-eq-full_iff_example :
    (weight 1300 search_a ≡ 3600) ↔ ((1300 ≤ search_a.ctime) ⊎ (search_a.ctime + 294 ≤ 1300))
weight-eq-full_iff_example = weight-eq-full_iff 1300 search_a (omega arith) (omega arith)

serialized_text :
    serialize_all 2000 (search_a ∷ [])
    ≡ codes "[{\"name\":\"/soa/search\",\"host\":\"10.0.0.1\",\"port\":9009,\"weight\":3600 }]"
unfolding serialize_all serialize weight
serialized_text = refl

-- Documents that are a number, or an array of numbers.
data Json : Type 0 where
  number : ℤ → Json
  array : List ℤ → Json

abbrev one_number : Rapidjson
one_number = record {
  Value = Json;
  parse = λ s. array (pos 7 ∷ []);
  has_parse_error = λ v. false;
  is_array = elim [ (array vs) ↦ true | (number z) ↦ false ];
  is_object = λ v. false;
  is_int = elim [ (array vs) ↦ false | (number z) ↦ true ];
  is_string = λ v. false;
  elements = elim [ (array vs) ↦ map number vs | (number z) ↦ [] ];
  member = λ v s. none;
  get_int = elim [ (array vs) ↦ pos 0 | (number z) ↦ z ];
  get_string = λ v. [];
}

unserialize_abort_example : unserialize one_number 5 (codes "[7]") ≡ none
unserialize_abort_example =
    unserialize_abort one_number 5 (codes "[7]") [] [] (number (pos 7)) refl refl (inl refl)
