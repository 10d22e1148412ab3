-- ===== src/StateBag/Tests.antt =====
-- `StateBag` of core/ClientPool.cpp at a concrete bag.
use sfproxy.Prelude.{ℕ, ◌+◌, ◌≡◌, [], arith, ◌==◌, if◌then◌else◌, Str, codes}
use mathlib.Core.Option
use sfproxy.StateBag.{
  ZkState, StateBag, add, get, size, replace_client_id, k_type_get_service, k_type_get_root,
}
use sfproxy.StateBag.Owners.{watches, replace_client_id-watches}

abbrev service : ℕ → ZkState
service id = record {
  client_id = id;
  type = k_type_get_service;
  path = codes "/soa/search";
  text = [];
}

abbrev root : ℕ → ZkState
root id = record { client_id = id; type = k_type_get_root; path = codes "/soa"; text = [] }

abbrev two_watches : StateBag
two_watches = add (root 2) (add (service 1) [])

replace_client_id-watches_example :
    let after = replace_client_id 1 2 two_watches in
    ((k : Str)
      → get k after
        ≡ Option.map
            (λ s. if s.client_id == 1 then record s { client_id = 2 } else s)
            (get k two_watches))
    × (watches 1 after ≡ 0)
    × (watches 2 after ≡ watches 2 two_watches + watches 1 two_watches)
    × (watches 3 after ≡ watches 3 two_watches)
    × (size after ≡ size two_watches)
replace_client_id-watches_example =
    replace_client_id-watches 1 2 3 two_watches (λ e. omega arith) (λ e. omega arith)
      (λ e. omega arith)
