-- ===== src/ZkClient/Tests/Watchers.antt =====
-- The watchers of core/ZkClient.cpp at a concrete root with one service.
use sfproxy.Prelude.{◌≡◌, refl, true, false, List, [], ◌∷◌, ◌++◌, Str, codes, str_eq}
use sfproxy.Zookeeper.{changed_event_def}
use sfproxy.Registry.{Registry, empty_registry, is_empty}
use sfproxy.StateBag.{k_type_get_service, k_type_get_root}
use sfproxy.ZkClient.{c_string, from_node}
use sfproxy.ZkClient.Calls.{slash, split_last}
use sfproxy.ZkClient.Connect.{connect_zk}
use sfproxy.ZkClient.Watchers.{split_path, service_instance_watcher, service_watcher, root_watcher}
use sfproxy.ZkClient.Refresh.{Describes}
use sfproxy.ZkClient.RefreshAll.{IsOffered, IsLinked}
use sfproxy.ZkClient.Rereads.{ServiceRead, InstanceRead, RootRead}
use sfproxy.ZkClient.Follow.{Reacts, PathGone, InstanceGone, watchers-Reacts}
use sfproxy.ZkClient.Tests.{steady, endpoint_object, a_path, client, member_of}

abbrev member : Str
member = codes "member_1"

abbrev soa : Str
soa = codes "/soa"

abbrev only_member : Str → Str
only_member path = member

abbrev no_more : Str → List Str
no_more path = []

abbrev instance_at : Str → Str → Registry
instance_at path name = record (member_of name) { name = path }

steady-Describes :
    (path : Str)
    → Describes steady endpoint_object 5
        (connect_zk steady endpoint_object 5 1)
        path
        (instance_at path)
        member
unfolding c_string from_node str_eq empty_registry
steady-Describes path w = (refl, codes "{}", refl, refl)

IsOffered-at :
    (path : Str)
    → is_empty path ≡ false
    → IsOffered only_member no_more instance_at steady endpoint_object 5
        (connect_zk steady endpoint_object 5 1)
        path
IsOffered-at path named = record {
  ok = λ w. refl;
  found = λ w. refl;
  describes = (steady-Describes path, tt);
  complete = ((refl, named, refl, refl), tt);
  distinct = (tt, tt);
}

client-IsLinked :
    IsLinked only_member no_more instance_at steady endpoint_object 5
      (connect_zk steady endpoint_object 5 1)
      (client steady true tt)
client-IsLinked = record { up = refl; handle = refl; valid = record { sorted = tt; buckets = tt } }

member_split : split_path (a_path ++ (slash ++ member)) ≡ (a_path, member)
unfolding split_path split_last
member_split = refl

watchers-Reacts_example :
    let c = client steady true tt in
    Reacts steady changed_event_def c
      (service_watcher steady endpoint_object 5 1 changed_event_def a_path c)
      (ServiceRead steady endpoint_object 5 1 only_member no_more instance_at a_path c)
      (PathGone steady k_type_get_service a_path c)
    × Reacts steady changed_event_def c
        (service_instance_watcher steady endpoint_object 5 1 changed_event_def
          (a_path ++ (slash ++ member))
          c)
        (InstanceRead steady endpoint_object 5 1 only_member no_more instance_at a_path member c)
        (InstanceGone steady (a_path ++ (slash ++ member)) a_path member c)
    × Reacts steady changed_event_def c
        (root_watcher steady endpoint_object 5 1 changed_event_def soa c)
        (RootRead steady endpoint_object 5 1 only_member no_more instance_at soa (member ∷ []) c)
        (PathGone steady k_type_get_root soa c)
watchers-Reacts_example =
    watchers-Reacts steady endpoint_object 5 1 only_member no_more instance_at changed_event_def
      a_path a_path member soa (member ∷ []) (client steady true tt) client-IsLinked
      (IsOffered-at a_path refl) member_split refl refl (steady-Describes a_path)
      (refl, refl, refl, refl) refl refl (IsOffered-at (soa ++ (slash ++ member)) refl, tt)
