-- ===== src/Zookeeper.antt =====
-- The ZooKeeper C client, as far as core/ZkClient.cpp calls it, with the codes that it returns. The
-- library is another project's and stays a parameter of the model: `World` is whatever its answers
-- depend on.
use sfproxy.Prelude.{ℕ, Bool, Option, List, Str, ℤ, pos, negsuc}

pub record Zookeeper : Type 1 where
  pub World : Type 0
  -- `zookeeper_init` and the wait for the handle: none without a handle, else the state of the handle
  -- after the wait.
  pub zookeeper_init : World → World × Option ℤ
  pub client_id : World → ℕ
  -- `zoo_wget`: the code, the data of the node, and `stat.ctime`.
  pub zoo_wget : Str → World → World × ℤ × Str × ℕ
  pub zoo_wget_children : Str → World → World × ℤ × List Str
  pub zoo_get : Str → World → World × ℤ × Str
  pub zoo_get_children : Str → World → World × ℤ × List Str
  -- `zoo_create` with a path, data, and whether the node is ephemeral.
  pub zoo_create : Str → Str → Bool → World → World × ℤ

abbrev pub zok : ℤ
zok = pos 0

-- -4, -9, -101 and -110.
abbrev pub zconnectionloss : ℤ
zconnectionloss = negsuc 3

abbrev pub zinvalidstate : ℤ
zinvalidstate = negsuc 8

abbrev pub znonode : ℤ
znonode = negsuc 100

abbrev pub znodeexists : ℤ
znodeexists = negsuc 109

abbrev pub connected_state_def : ℤ
connected_state_def = pos 3

-- The types of events.
abbrev pub created_event_def : ℤ
created_event_def = pos 1

abbrev pub deleted_event_def : ℤ
deleted_event_def = pos 2

abbrev pub changed_event_def : ℤ
changed_event_def = pos 3

abbrev pub child_event_def : ℤ
child_event_def = pos 4

abbrev pub zoo_expired_session_state : ℤ
zoo_expired_session_state = negsuc 111
