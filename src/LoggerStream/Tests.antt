-- ===== src/LoggerStream/Tests.antt =====
-- log/LoggerStream.cpp at concrete texts.
use sfproxy.Prelude.{
  ℕ, zero, suc, ◌<◌, ◌≡◌, refl, none, some, [], ◌∷◌, ◌++◌, arith, length, All, Str, codes,
}
use sfproxy.LoggerStream.{LoggerStream, sync, sputn}
use sfproxy.LoggerStream.Buffer.{sync-sputn, sputn_overruns}

-- A stream of static storage: all bytes are zero.
abbrev new_stream : LoggerStream
new_stream = record { buf = λ i. 0; len = 0 }

sync-sputn_example :
    (t : LoggerStream) × (u : LoggerStream) × (sputn (codes "warm") new_stream ≡ some (t, []))
    × (sync t ≡ some (u, codes "warm" ∷ []))
    × (u.len ≡ 0)
    × (u.buf 255 ≡ 0)
sync-sputn_example = sync-sputn (codes "warm") new_stream refl refl (omega arith) (omega arith)

repeated : ℕ → Str
repeated zero = []
repeated (suc n) = b'a' ∷ repeated n

length-repeated : (n : ℕ) → length (repeated n) ≡ n
unfolding repeated
length-repeated zero = refl
length-repeated (suc n) = omega (arith, length-repeated n)

repeated_full : (n : ℕ) → All (λ c. 0 < c) (repeated n ++ (b'a' ∷ []))
unfolding repeated
repeated_full zero = (omega arith, tt)
repeated_full (suc n) = (omega arith, repeated_full n)

sputn_overruns_example : sputn (repeated 255 ++ (b'a' ∷ [])) new_stream ≡ none
sputn_overruns_example =
    sputn_overruns (repeated 255) b'a' new_stream refl (repeated_full 255) (length-repeated 255)
