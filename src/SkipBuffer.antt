-- ===== src/SkipBuffer.antt =====
-- core/SkipBuffer.h: which paths are being read from ZooKeeper, with 32-bit times in milliseconds.
-- Each operation holds the mutex. `now_ms` is the 64-bit clock reading.
pub mod Throttle
pub mod Tests
use sfproxy.Prelude.{
  ℕ, zero, suc, ◌+◌, ◌-◌, ◌*◌, ◌/◌, ◌%◌, ◌^◌, ◌≤◌, ◌<◌, ◌≡◌, refl, sym, ap, ◌∙◌, subst, ◌≢◌, ◌↔◌,
  ◌⊎◌, inl, inr, Bool, true, false, ◌&&◌, ◌||◌, not, Option, none, some, List, [], ◌∷◌, ◌++◌, map,
  arith, ltb, leb, ◌==◌, if◌then◌else◌, ◌>>=◌, ◌>>◌, ltb→lt, lt→ltb, ltb-false, ==_iff, Bool-cases,
  Option-cases, length, length-append, keep_if, length-keep_if-le, keep_if-append, All, All-append,
  All-keep_if, Str, codes, str_eq, str_lt, str_eq_iff, str_eq_refl, ℤ, pos, negsuc, pos_part,
  neg_part, sub_ℕ, ◌+ℤ◌, ltb_ℤ, eq_ℤ,
}
use sfproxy.OrderedMap.{Map, find, erase}
use sfproxy.OrderedMap

pub record SkipBuffer : Type 0 where
  pub entries : Map ℕ
  pub timeout : ℕ

unfoldable pub new_buffer : ℕ → SkipBuffer
new_buffer timeout = record { entries = []; timeout = timeout }

-- `now - (*it).second`, in 32 bits.
unfoldable pub elapsed : ℕ → ℕ → ℕ
elapsed now since = (now + 2 ^ 32 - since) % 2 ^ 32

-- The entry is dropped if it has timed out.
unfoldable pub drop_timed_out : Str → ℕ → SkipBuffer → Map ℕ
unfolding elapsed
drop_timed_out zkpath now b = elim (find zkpath b.entries) [
  | none ↦ b.entries
  | some since ↦
      if ltb b.timeout (elapsed now since) then OrderedMap.erase zkpath b.entries else b.entries
]

abbrev pub is_none {ℓ} : {A : Type ℓ} → Option A → Bool
is_none none = true
is_none (some a) = false

-- `insert`: the flag tells whether the path was put in.
unfoldable pub insert : Str → ℕ → SkipBuffer → SkipBuffer × Bool
unfolding drop_timed_out
insert zkpath now_ms b =
    let now = now_ms % 2 ^ 32 in
    let entries = drop_timed_out zkpath now b in
    (record b { entries = OrderedMap.insert zkpath now entries }, is_none (find zkpath entries))

-- `erase`.
unfoldable pub release : Str → SkipBuffer → SkipBuffer
release key b = record b {
  entries = elim (find key b.entries) [
    | none ↦ b.entries
    | some _ ↦ OrderedMap.erase key b.entries
  ];
}
