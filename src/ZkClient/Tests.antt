-- ===== src/ZkClient/Tests.antt =====
-- core/ZkClient.cpp with two concrete stand-ins for ZooKeeper: one that keeps the session and whose
-- nodes are all there, and one that loses every session at the next reading of a service.
pub mod Watchers
use sfproxy.Prelude.{
  ◌≡◌, refl, ◌≢◌, Bool, true, false, none, some, [], ◌∷◌, ◌++◌, if◌then◌else◌, Str, codes, str_eq,
  pos,
}
use sfproxy.Json.{Rapidjson}
use sfproxy.Zookeeper.{Zookeeper, zok, zinvalidstate, connected_state_def, changed_event_def}
use sfproxy.OrderedMap.{find, modify}
use sfproxy.Decimal.{show_ℕ}
use sfproxy.StateBag.{ZkState, StateBag, key, create_key}
use sfproxy.StateBag
use sfproxy.ZkClient.{ZkClient, connect_tries, c_string, from_node, wget}
use sfproxy.ZkClient.Calls.{
  slash, split_last, instance_read, get_service_instance_at, get_service, get_services,
}
use sfproxy.ZkClient.Connect.{connect_zk}
use sfproxy.ZkClient.Healthy.{IsHealthy}
use sfproxy.ZkClient.Restore.{Reconnected, connect_zk-returns}
use sfproxy.ZkClient.Runaway.{IsLost, service_watch, two_services, connect_zk-runs_away}
use sfproxy.Registry.{Registry, empty_registry}
use sfproxy.ZkClient.Refresh.{Describes}
use sfproxy.ZkClient.Paths.{get_service_instance_at-path, get_services-stops}

-- Every text is an empty object.
abbrev empty_object : Rapidjson
empty_object = record {
  Value = Unit;
  parse = λ s. tt;
  has_parse_error = λ v. false;
  is_array = λ v. false;
  is_object = λ v. true;
  is_int = λ v. false;
  is_string = λ v. false;
  elements = λ v. [];
  member = λ v s. none;
  get_int = λ v. pos 0;
  get_string = λ v. [];
}

abbrev pub steady : Zookeeper
steady = record {
  World = Unit;
  zookeeper_init = λ w. (w, some connected_state_def);
  client_id = λ w. 7;
  zoo_wget = λ path w. (w, zok, codes "{}", 1000);
  zoo_wget_children = λ path w. (w, zok, codes "member_1" ∷ []);
  zoo_get = λ path w. (w, zok, []);
  zoo_get_children = λ path w. (w, zok, []);
  zoo_create = λ path text e w. (w, zok);
}

abbrev losing : Zookeeper
losing = record steady { zoo_wget_children = λ path w. (w, zinvalidstate, []) }

abbrev pub a_path : Str
a_path = codes "/soa/a"

abbrev b_path : Str
b_path = codes "/soa/b"

abbrev pub client : (Z : Zookeeper) → Bool → Z.World → ZkClient Z
client Z up w = record {
  id = 3;
  connected = up;
  handle = up;
  session_id = 0;
  cache = [];
  states = two_services 3 a_path b_path;
  world = w;
}

steady-IsHealthy : IsHealthy steady empty_object
unfolding c_string from_node
steady-IsHealthy = record {
  wget_kept = λ path w. (refl, refl);
  readable = λ path w. (codes "{}", refl, λ r. (r, refl));
  children_kept = λ path w. (refl, refl);
  create_kept = λ path text e w. (refl, refl);
}

first_watch : find (b'1' ∷ a_path) (two_services 3 a_path b_path) ≡ some (service_watch 3 a_path)
unfolding find str_eq
first_watch = refl

connect_zk-returns_example :
    let c = client steady false tt in
    let up = (connect_tries steady 11 c.world).1 in
    (d : ZkClient steady) × (t : ZkState) × (connect_zk steady empty_object 5 1 c ≡ some d)
    × (d.connected ≡ up)
    × (d.handle ≡ up)
    × (find (b'1' ∷ a_path) d.states ≡ some t)
    × Reconnected c.id up (service_watch 3 a_path) t
connect_zk-returns_example =
    connect_zk-returns steady empty_object steady-IsHealthy 5 0 (client steady false tt)
      (b'1' ∷ a_path) (service_watch 3 a_path) refl first_watch

paths_apart : str_eq a_path b_path ≡ false
unfolding str_eq
paths_apart = refl

client-IsLost : IsLost losing 3 a_path b_path (client losing false tt)
client-IsLost = record { down = refl; same = refl; bag = refl }

connect_zk-runs_away_example : connect_zk losing empty_object 5 100 (client losing false tt) ≡ none
connect_zk-runs_away_example =
    connect_zk-runs_away losing empty_object 5 3 a_path b_path paths_apart (λ path w. refl) 100
      (client losing false tt) (λ w. refl) client-IsLost

last_slash : split_last a_path ≡ some (codes "/soa", codes "/a")
unfolding split_last
last_slash = refl

get_service_instance_at-path_example :
    (get_service_instance_at steady empty_object 5 some a_path (client steady true tt)
      ≡ instance_read steady empty_object 5 some
          (codes "/soa")
          (codes "/a")
          (wget steady (codes "/soa" ++ (slash ++ codes "/a")) (client steady true tt)))
    × (codes "/soa" ++ (slash ++ codes "/a") ≢ a_path)
get_service_instance_at-path_example =
    get_service_instance_at-path steady empty_object 5 some a_path (codes "/soa") (codes "/a")
      (client steady true tt) refl last_slash

abbrev client_down : ZkClient losing
client_down = record (client losing true tt) { connected = false }

services_none :
    get_services losing empty_object 5 some [] (client losing true tt)
    ≡ some (client losing true tt, true)
unfolding get_services
services_none = refl

service_lost :
    get_service losing empty_object 5 some a_path (client losing true tt)
    ≡ some (client_down, false)
unfolding get_service find modify str_eq StateBag.add key create_key show_ℕ
service_lost = refl

get_services-stops_example :
    get_services losing empty_object 5 some (a_path ∷ b_path ∷ []) (client losing true tt)
    ≡ some (client_down, false)
get_services-stops_example =
    get_services-stops losing empty_object 5 some [] (b_path ∷ []) a_path (client losing true tt)
      (client losing true tt) client_down services_none service_lost

-- Documents with an endpoint, and what stands in them.
pub data Doc : Type 0 where
  whole : Doc
  endpoint : Doc
  host_text : Doc
  port_number : Doc

abbrev pub endpoint_object : Rapidjson
endpoint_object = record {
  Value = Doc;
  parse = λ s. whole;
  has_parse_error = λ v. false;
  is_array = λ v. false;
  is_object = elim [ whole ↦ true | endpoint ↦ true | host_text ↦ false | port_number ↦ false ];
  is_int = elim [ whole ↦ false | endpoint ↦ false | host_text ↦ false | port_number ↦ true ];
  is_string = elim [ whole ↦ false | endpoint ↦ false | host_text ↦ true | port_number ↦ false ];
  elements = λ v. [];
  member = elim [
    | whole ↦ λ s. some endpoint
    | endpoint ↦ λ s. if str_eq s (codes "host") then some host_text else some port_number
    | host_text ↦ λ s. none
    | port_number ↦ λ s. none
  ];
  get_int = λ v. pos 9009;
  get_string = λ v. codes "10.0.0.1";
}

abbrev pub member_of : Str → Registry
member_of name = record {
  name = a_path;
  host = codes "10.0.0.1";
  port = pos 9009;
  ctime = 1;
  mtime = 5;
  ephemeral = name;
  json = [];
}

pub member_described : Describes steady endpoint_object 5 some a_path member_of (codes "member_1")
unfolding c_string from_node str_eq empty_registry
member_described w = (refl, codes "{}", refl, refl)
