-- ===== src/Handler/Misses.antt =====
-- `get` of core/ServerHandler.cpp for a service that the cache does not have.
use sfproxy.Prelude.{
  ℕ, ◌+◌, ◌^◌, ◌≤◌, ◌<◌, ◌≡◌, refl, sym, ap, ◌∙◌, ◌↔◌, true, Option, none, some, List, [], All, Str,
}
use sfproxy.Registry.{Registry}
use sfproxy.Cache.{RegistryCache, is_nil}
use sfproxy.Cache
use sfproxy.SkipBuffer
use sfproxy.SkipBuffer.{SkipBuffer, release}
use sfproxy.SkipBuffer.Throttle.{BufferCall, IsQuiet, run, throttled, insert-release}
use sfproxy.Handler.{ServerHandler, service_path, is_missing, answer, get, got_service}

answer_missing :
    (time_0 : ℕ) (o : Option (List Registry)) → is_missing o ≡ true → answer time_0 o ≡ []
unfolding answer
answer_missing time_0 none h = refl
answer_missing time_0 (some v) h = rw h refl

-- What `get` does for a service without instances.
get_missing :
    (time_0 now_ms : ℕ) (service : Str) (h : ServerHandler)
    → is_missing (Cache.get (service_path h service) h.cache) ≡ true
    → get time_0 now_ms service h ≡ (
      record h { skip_buf = (SkipBuffer.insert (service_path h service) now_ms h.skip_buf).0 },
      [],
      (SkipBuffer.insert (service_path h service) now_ms h.skip_buf).1,
    )
unfolding get
get_missing time_0 now_ms service h missing =
    rw (missing, answer_missing time_0 (Cache.get (service_path h service) h.cache) missing) refl

-- The reading has ended without an instance.
asks_released :
    (time_0 now : ℕ) (service : Str) (h : ServerHandler) (cache : RegistryCache)
    → is_missing (Cache.get (service_path h service) cache) ≡ true
    → (get time_0 now service (got_service (service_path h service) cache h)).2 ≡ true
unfolding got_service
asks_released time_0 now service h cache still =
    ap (λ x. x.2)
      (get_missing time_0 now service (got_service (service_path h service) cache h) still)
    ∙ insert-release (service_path h service) now h.skip_buf

-- Once `get` at time `t` has a missing service read from ZooKeeper, and while that reading has not
-- ended, with any calls of the skip buffer about other services or within the timeout in between, a
-- `get` at a later time `now` answers with the empty text, and has the service read again exactly
-- when more than the timeout of the skip buffer has gone by, as long as `now` is less than 2^32
-- milliseconds after `t`. When the reading ends and the cache still has no instance of the service,
-- the next `get` has it read again at once.
pub get-asks_again :
    (time_0 t now : ℕ) (service : Str) (h : ServerHandler) (cs : List BufferCall)
    (cache : RegistryCache)
    → is_missing (Cache.get (service_path h service) h.cache) ≡ true
    → is_missing (Cache.get (service_path h service) cache) ≡ true
    → h.skip_buf.timeout < 2 ^ 32
    → (get time_0 t service h).2 ≡ true
    → All (IsQuiet (service_path h service) t h.skip_buf.timeout) cs
    → t ≤ now
    → now < t + 2 ^ 32
    → let asked = record h { skip_buf = run cs (get time_0 t service h).0.skip_buf } in
      ((get time_0 now service asked).1 ≡ [])
      × (((get time_0 now service asked).2 ≡ true) ↔ (t + h.skip_buf.timeout < now))
      × ((get time_0 now service (got_service (service_path h service) cache asked)).2 ≡ true)
get-asks_again time_0 t now service h cs cache missing still short asks quiet early near =
    let path = service_path h service in
    let first = get_missing time_0 t service h missing in
    let asked : ServerHandler = record h {
      skip_buf = run cs (SkipBuffer.insert path t h.skip_buf).0;
    } in
    let second = get_missing time_0 now service asked missing in
    let granted : (SkipBuffer.insert path t h.skip_buf).1 ≡ true =
      sym (ap (λ x. x.2) first) ∙ asks in
    rw first (
      ap (λ x. x.1) second,
      rw second (throttled path t now h.skip_buf cs short granted quiet early near),
      asks_released time_0 now service asked cache still,
    )
