-- ===== src/Server/Fetch.antt =====
-- The reading of a service in core/ServerHandler.cpp, from the pool to the answer.
use sfproxy.Prelude.{
  ℕ, ◌≡◌, refl, sym, ap, ◌∙◌, subst, Bool, true, false, Option, none, some, List, ◌∷◌, map,
  if◌then◌else◌, ◌>>=◌, All, Str, str_eq, str_eq_refl,
}
use sfproxy.Prelude.{Returns, Returns-bind, Returns-map}
use sfproxy.Json.{Rapidjson}
use sfproxy.Zookeeper.{Zookeeper, zok}
use sfproxy.StateBag.{StateBag}
use sfproxy.Client.{Client}
use sfproxy.Pool.Invariant
use sfproxy.Pool.Grows.{HasRoom}
use sfproxy.Pool.Waiting.{IsWaiting}
use sfproxy.Registry.{Registry, serialize_all}
use sfproxy.Cache
use sfproxy.Cache.Bucket.{IsComplete, Distinct}
use sfproxy.Cache.Invariant.{IsValid}
use sfproxy.ZkClient.Calls.{get_service}
use sfproxy.ZkClient.Connect.{connect_zk}
use sfproxy.ZkClient.Refresh.{Describes, refreshed}
use sfproxy.Handler.{ServerHandler, service_path, answer, got_service}
use sfproxy.Handler
use sfproxy.Server.{Server, load, store, on_client, open_one, close_one}
use sfproxy.Server.Tasks.{get_service_from_zk}
use sfproxy.Server.Held.{update_same, Has, close_one-Returns, on_client_known, open_one-Returns}

module _ (Z : Zookeeper) (J : Rapidjson) (fuel : ℕ) where
  module _ (instance_of : Str → Registry) (name : Str) (names : List Str) (now : ℕ) (service : Str)
      (h : ServerHandler) (w : Z.World) where
    -- What ZooKeeper has of the service: nodes, each with data that describes a complete instance, no
    -- two of them of one endpoint.
    pub record Offers : Type 0 where
      pub ok : (Z.zoo_wget_children (service_path h service) w).1 ≡ zok
      pub found : (Z.zoo_wget_children (service_path h service) w).2 ≡ name ∷ names
      pub describes :
          All
            (Describes Z J now (connect_zk Z J now fuel) (service_path h service) instance_of)
            (name ∷ names)
      pub complete : All (IsComplete (service_path h service)) (map instance_of (name ∷ names))
      pub distinct : Distinct (map instance_of (name ∷ names))

    -- The cache after the reading.
    abbrev pub IsRead : Cache.RegistryCache → Type 0
    IsRead cache =
        (j : Str)
        → Cache.get j cache ≡ (
            if str_eq (service_path h service) j
            then some (map instance_of (name ∷ names))
            else Cache.get j h.cache)

    pub record IsFetched (s : Server Z) : Type 0 where
      pub root : s.handler.root ≡ h.root
      pub split : s.handler.split ≡ h.split
      pub read : IsRead s.handler.cache

    service_read :
        {bag : StateBag} (a : ℕ) (s : Server Z)
        → Offers
        → IsValid h.cache
        → Has Z a h w bag s
        → Returns
            (λ (x : Server Z × Bool). IsFetched x.0 × ((c : Client) × (x.0.pool.heap a ≡ some c)))
            (on_client Z
              (get_service Z J now (connect_zk Z J now fuel) (service_path h service))
              a
              s)
    unfolding load store
    service_read a s o valid k =
        let z = load Z a k.client s in
        let same : s.handler.cache ≡ h.cache = ap (λ (x : ServerHandler). x.cache) k.handler in
        let (d, e, _, _, read) =
          refreshed Z J now (connect_zk Z J now fuel) (service_path h service) instance_of name
            names z k.up k.handle (subst IsValid (sym same) valid) (rw k.world o.ok)
            (rw k.world o.found) o.describes o.complete o.distinct in
        rw
          (on_client_known Z
            (get_service Z J now (connect_zk Z J now fuel) (service_path h service)) a k.client s d
            true k.there e)
          (
            record {
              root = ap (λ (x : ServerHandler). x.root) k.handler;
              split = ap (λ (x : ServerHandler). x.split) k.handler;
              read = λ j.
                  read j
                  ∙ ap
                      (λ c.
                        if str_eq (service_path h service) j
                        then some (map instance_of (name ∷ names))
                        else Cache.get j c)
                      same;
            },
            (
              record k.client { connected = d.connected; session_id = d.session_id },
              update_same s.pool.heap a _,
            ),
          )

    closed :
        (a : ℕ) (s : Server Z) (c : Client)
        → IsFetched s
        → s.pool.heap a ≡ some c
        → Returns IsFetched (close_one Z a s)
    closed a s c k there =
        Returns-map (λ (t : Server Z). t.handler ≡ s.handler) IsFetched (close_one Z a s)
          (close_one-Returns Z a c s there)
          (λ t e. record {
            root = ap (λ (x : ServerHandler). x.root) e ∙ k.root;
            split = ap (λ (x : ServerHandler). x.split) e ∙ k.split;
            read = λ j. ap (λ (x : ServerHandler). Cache.get j x.cache) e ∙ k.read j;
          })

    got :
        (s : Server Z)
        → IsFetched s
        → IsFetched
            (record s { handler = got_service (service_path h service) s.handler.cache s.handler })
    unfolding got_service
    got s k = record { root = k.root; split = k.split; read = k.read }

    fetched :
        {bag : StateBag} (o : Option ℕ) (a : ℕ) (s1 : Server Z)
        → Offers
        → IsValid h.cache
        → o ≡ some a
        → Has Z a h w bag s1
        → Returns IsFetched (elim o [
          | none ↦ some s1
          | some b ↦ do
            (s', _) ←
                on_client Z
                  (get_service Z J now (connect_zk Z J now fuel) (service_path h service))
                  b
                  s1
            close_one Z b s'
        ])
    fetched {bag} none a s1 o valid e k = cc
    fetched {bag} (some b) a s1 o valid e k =
        Returns-bind
          (λ (x : Server Z × Bool). IsFetched x.0 × ((c : Client) × (x.0.pool.heap b ≡ some c)))
          IsFetched _ _ (service_read b s1 o valid (subst (λ x. Has Z x h w bag s1) (cc) k))
          (λ (s', _) (f, (c, there)). closed b s' c f there)

  -- Between requests: the pool and the cache are valid, the pool is not full, and the client at `a` is
  -- the first that is idle, and connected.
  pub record IsIdling (a : ℕ) (rest : List ℕ) (c : Client) (s : Server Z) : Type 0 where
    pub pool : Invariant.IsValid s.pool
    pub room : HasRoom s.pool
    pub waiting : IsWaiting a rest c s.pool
    pub handle : s.handle a ≡ true
    pub cache : IsValid s.handler.cache

  pub get_service_from_zk-fetches :
      (fresh now a : ℕ) (rest : List ℕ) (c : Client) (service : Str) (instance_of : Str → Registry)
      (name : Str) (names : List Str) (s : Server Z)
      → IsIdling a rest c s
      → Offers instance_of name names now service s.handler s.world
      → Returns
          (IsFetched instance_of name names now service s.handler s.world)
          (get_service_from_zk Z J fuel fresh now (service_path s.handler service) s)
  unfolding get_service_from_zk
  get_service_from_zk-fetches fresh now a rest c service instance_of name names s i o =
      Returns-bind
        (λ (x : Server Z × Option ℕ).
          (x.1 ≡ some a) × Has Z a s.handler s.world s.pool.state_bag x.0)
        (IsFetched instance_of name names now service s.handler s.world)
        (open_one Z J fuel fresh now s) _
        (open_one-Returns Z J fuel fresh now a rest c s i.pool i.room i.waiting i.handle)
        (λ (s1, b) (e, k).
          Returns-bind (IsFetched instance_of name names now service s.handler s.world)
            (IsFetched instance_of name names now service s.handler s.world) _ _
            (fetched instance_of name names now service s.handler s.world b a s1 o i.cache e k)
            (λ s2 f. got instance_of name names now service s.handler s.world s2 f))

  answered :
      (time_0 now_ms now : ℕ) (service : Str) (instance_of : Str → Registry) (name : Str)
      (names : List Str) (h : ServerHandler) (w : Z.World) (s : Server Z)
      → IsFetched instance_of name names now service h w s
      → Handler.get time_0 now_ms service s.handler
        ≡ (s.handler, serialize_all time_0 (map instance_of (name ∷ names)), false)
  unfolding Handler.get answer
  answered time_0 now_ms now service instance_of name names h w s f =
      let same : service_path s.handler service ≡ service_path h service =
        rw (f.root, f.split) refl in
      let found : Cache.get (service_path h service) s.handler.cache
          ≡ some (map instance_of (name ∷ names)) =
        f.read (service_path h service) ∙ rw (str_eq_refl (service_path h service)) refl in
      rw (same) (rw found refl)

  -- Between requests (a valid pool that is not full, whose first idle client is connected, and a valid
  -- cache), where ZooKeeper has nodes for a service and each describes a complete instance of an
  -- endpoint of its own: the reading that a missed request commits returns. Afterwards the cache has
  -- exactly these instances for the service, in the order of the nodes, and no other service has
  -- changed; a request then answers with their text and asks ZooKeeper no more.
  pub get_service_from_zk-answers :
      (time_0 now_ms fresh now a : ℕ) (rest : List ℕ) (c : Client) (service : Str)
      (instance_of : Str → Registry) (name : Str) (names : List Str) (s : Server Z)
      → IsIdling a rest c s
      → Offers instance_of name names now service s.handler s.world
      → Returns
          (λ (t : Server Z).
            IsRead instance_of name names now service s.handler s.world t.handler.cache
            × (Handler.get time_0 now_ms service t.handler
                ≡ (t.handler, serialize_all time_0 (map instance_of (name ∷ names)), false)))
          (get_service_from_zk Z J fuel fresh now (service_path s.handler service) s)
  get_service_from_zk-answers time_0 now_ms fresh now a rest c service instance_of name names s i
        o =
      Returns-map (IsFetched instance_of name names now service s.handler s.world) _ _
        (get_service_from_zk-fetches fresh now a rest c service instance_of name names s i o)
        (λ t f.
          (f.read, answered time_0 now_ms now service instance_of name names s.handler s.world t f))
