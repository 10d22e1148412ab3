-- ===== src/SkipBuffer/Tests.antt =====
-- core/SkipBuffer.h at concrete times.
use sfproxy.Prelude.{◌+◌, ◌<◌, ◌≡◌, refl, ◌↔◌, inr, true, List, [], ◌∷◌, arith, Str, codes, str_eq}
use sfproxy.OrderedMap.{find}
use sfproxy.SkipBuffer.{new_buffer, insert}
use sfproxy.SkipBuffer.Throttle.{run, BufferCall, inserts, releases, throttled}

abbrev path : Str
path = codes "/soa"

abbrev quiet_calls : List BufferCall
quiet_calls = inserts path 1200 ∷ releases (codes "/b") ∷ []

first_through : (insert path 1000 (new_buffer 500)).1 ≡ true
unfolding insert new_buffer find
first_through = refl

throttled_example :
    ((insert path 1501 (run quiet_calls (insert path 1000 (new_buffer 500)).0)).1 ≡ true)
    ↔ (1000 + (new_buffer 500).timeout < 1501)
unfolding new_buffer str_eq
throttled_example =
    throttled path 1000 1501 (new_buffer 500) quiet_calls (omega arith) first_through
      (inr (omega arith, omega arith), ((λ e. ground arith), tt)) (omega arith) (omega arith)
