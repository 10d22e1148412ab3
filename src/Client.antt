-- ===== src/Client.antt =====
-- `ClientBase` of core/ClientPool.h and core/ClientPool.cpp: one connection, as the pool sees it.
-- The counters are taken as unbounded: they would need 2^31 uses to leave an `int`.
use sfproxy.Prelude.{ℕ, ◌+◌, Bool, true, false, ℤ, pos, negsuc, ◌+ℤ◌}

pub record Client : Type 0 where
  pub last_use : ℕ
  pub use_times : ℕ
  pub using_counter : ℤ
  pub connected : Bool
  pub id : ℕ
  pub session_id : ℕ
  -- Whether `pool_event_` is set.
  pub has_event : Bool

abbrev pub event_type_connection_state : ℕ
event_type_connection_state = 1

abbrev pub event_type_closeing : ℕ
event_type_closeing = 2

-- `ClientBase(states)`.
unfoldable pub new_client : Client
new_client = record {
  last_use = 0;
  use_times = 0;
  using_counter = pos 0;
  connected = false;
  id = 0;
  session_id = 0;
  has_event = false;
}

unfoldable pub set_in_using : Bool → Client → Client
set_in_using true c = record c {
  using_counter = c.using_counter +ℤ pos 1;
  use_times = c.use_times + 1;
}
set_in_using false c = record c { using_counter = c.using_counter +ℤ negsuc 0 }

unfoldable pub set_connected : Bool → Client → Client
set_connected connected c = record c { connected = connected }
