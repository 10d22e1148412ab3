-- ===== src/Handler/Drops.antt =====
-- Readings that the thread pool of core/ServerHandler.cpp refuses.
use sfproxy.Prelude.{
  ℕ, ◌+◌, ◌^◌, ◌≤◌, ◌<◌, ◌≡◌, refl, ◌↔◌, Bool, true, false, List, [], ◌∷◌, ◌++◌, arith, ltb,
  if◌then◌else◌, length, All, Str,
}
use sfproxy.Cache
use sfproxy.SkipBuffer.Throttle.{BufferCall, IsQuiet, run}
use sfproxy.Handler.{
  ServerHandler, service_path, is_missing, get, async_get_service_from_zk, request,
}
use sfproxy.Handler.Misses.{get-asks_again}

iff_ltb : (b : Bool) (m n : ℕ) → (b ≡ true) ↔ (m < n) → b ≡ ltb m n
iff_ltb b m n h = ground (arith, h)

refused :
    (pending_max : ℕ) (b : Bool) (path : Str) (pending : List Str)
    → pending_max ≤ length pending
    → (if b then async_get_service_from_zk pending_max path pending else pending) ≡ pending
unfolding async_get_service_from_zk
refused pending_max true path pending full =
    let no_room : ltb (length pending) pending_max ≡ false = ground arith in rw no_room refl
refused pending_max false path pending full = refl

taken :
    (pending_max : ℕ) (b c : Bool) (path : Str) (pending : List Str)
    → length pending < pending_max
    → b ≡ c
    → (if b then async_get_service_from_zk pending_max path pending else pending)
      ≡ (if c then pending ++ (path ∷ []) else pending)
unfolding async_get_service_from_zk
taken pending_max b c path pending room e =
    let has_room : ltb (length pending) pending_max ≡ true = ground arith in rw (has_room, e) refl

-- A missing service is asked for while the list of the pending tasks is full: its reading is dropped. Until
-- more than the timeout of the skip buffer has gone by, no later request has the service read either, even
-- if there is room by then; the first request after that commits the reading, where there is room. In
-- between there may be any calls of the skip buffer about other services or within the timeout.
pub request-drops :
    (pending_max time_0 t now : ℕ) (service : Str) (h : ServerHandler) (cs : List BufferCall)
    (pending later : List Str)
    → is_missing (Cache.get (service_path h service) h.cache) ≡ true
    → h.skip_buf.timeout < 2 ^ 32
    → (get time_0 t service h).2 ≡ true
    → pending_max ≤ length pending
    → All (IsQuiet (service_path h service) t h.skip_buf.timeout) cs
    → t ≤ now
    → now < t + 2 ^ 32
    → length later < pending_max
    → let first = request pending_max time_0 t service h pending in
      let asked = record h { skip_buf = run cs first.0.skip_buf } in
      (first.2 ≡ pending)
      × ((request pending_max time_0 now service asked later).2 ≡ (
          if ltb (t + h.skip_buf.timeout) now
          then later ++ (service_path h service ∷ [])
          else later))
unfolding request
request-drops pending_max time_0 t now service h cs pending later missing short asks full quiet
      early near room =
    let (_, again, _) =
      get-asks_again time_0 t now service h cs h.cache missing missing short asks quiet early
        near in
    (
      refused pending_max _ (service_path h service) pending full,
      taken pending_max _ _ (service_path h service) later room
          (iff_ltb _ (t + h.skip_buf.timeout) now again),
    )
