-- ===== src/Server/Quiet.antt =====
-- The server of core/ServerHandler.cpp while no task runs.
use sfproxy.Prelude.{
  ℕ, ◌+◌, ◌≤◌, ◌≡◌, ap, ◌∙◌, inl, inr, true, Option, none, some, [], arith, length, ℤ, pos, ltb_ℤ,
}
use sfproxy.Prelude.{Post, Post-known}
use sfproxy.Zookeeper.{Zookeeper}
use sfproxy.AddressSet.{occ}
use sfproxy.Pool.{size, max_client_def}
use sfproxy.Pool.History.{IsGood}
use sfproxy.Pool.Reset.{no_members}
use sfproxy.Pool.Grows.{IsSmall}
use sfproxy.Cache.Invariant.{IsValid}
use sfproxy.Server.{Server}
use sfproxy.Server.Borrow.{Back}
use sfproxy.Server.Safety.{IsReady}

module _ (Z : Zookeeper) where
  -- Between two of them.
  pub record IsQuiet (s : Server Z) : Type 0 where
    pub good : IsGood s.pool
    pub valid : IsValid s.handler.cache
    pub unlent : s.pool.lent ≡ []
    pub one : length s.pool.idle ≤ 1
    pub bound : s.pool.max_client ≡ pos max_client_def

  roomy : (n : ℕ) (z : ℤ) → n ≤ 1 → z ≡ pos max_client_def → ltb_ℤ (pos n) z ≡ true
  roomy n z h e = rw e (ground arith)

  pub ready : (fresh : ℕ) (s : Server Z) → IsQuiet s → s.pool.heap fresh ≡ none → IsReady Z fresh s
  unfolding size
  ready fresh s q free = record {
    good = q.good;
    valid = q.valid;
    free = free;
    room =
        roomy (length s.pool.lent + length s.pool.idle) s.pool.max_client
          (omega (arith, ap length q.unlent, q.one)) q.bound;
  }

  -- What was given back leaves the server quiet.
  pub quiet_again : (s t : Server Z) → IsQuiet s → Back Z s.pool t → IsQuiet t
  unfolding occ
  quiet_again s t q b = record {
    good = b.good;
    valid = b.valid;
    unlent = no_members t.pool.lent (λ a. unlent_at a);
    one = few b.count.2;
    bound = b.count.1 ∙ q.bound;
  }
    where
      unlent_at : (a : ℕ) → occ a t.pool.lent ≡ 0
      unlent_at a = omega (arith, b.count.0 a, ap (occ a) q.unlent)

      few : IsSmall s.pool t.pool → length t.pool.idle ≤ 1
      few (inl h) = omega (arith, h, ap length q.unlent, q.one)
      few (inr h) = omega (arith, h, ap length q.unlent)

  pub returned :
      (s t : Server Z) (o : Option (Server Z))
      → IsQuiet s
      → o ≡ some t
      → Post (Back Z s.pool) o
      → IsQuiet t
  returned s t o q e h = quiet_again s t q (Post-known (Back Z s.pool) o t e h)
