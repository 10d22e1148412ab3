-- ===== src/StateBag/Key.antt =====
-- The keys of the watches of core/ZkClient.h.
use sfproxy.Prelude.{ℕ, ◌+◌, ◌<◌, ◌≡◌, ◌↔◌, [], ◌∷◌, arith}
use sfproxy.Decimal.{show_ℕ}
use sfproxy.StateBag.{ZkState, create_key, key}

show_one : (n : ℕ) → n < 10 → show_ℕ n ≡ (b'0' + n) ∷ []
unfolding show_ℕ
show_one n h = ground arith

-- Two states whose types are single digits, as all types of the code are, have the same key exactly
-- when they have the same type and the same path.
pub key-eq_iff :
    (s c : ZkState)
    → s.type < 10
    → c.type < 10
    → (key s ≡ key c) ↔ ((s.type ≡ c.type) × (s.path ≡ c.path))
unfolding key create_key
key-eq_iff s c h k =
    rw (show_one s.type h, show_one c.type k)
      ((λ e. (ground arith, ground arith)), (λ e. ground arith))
