-- ===== src/ZkClient/Paths.antt =====
-- Which paths the readings of core/ZkClient.cpp ask ZooKeeper for.
use sfproxy.Prelude.{
  ℕ, ◌≡◌, refl, sym, ap, ◌∙◌, subst, ◌≢◌, inl, inr, Bool, true, false, Option, some, List, [], ◌∷◌,
  ◌++◌, arith, if◌then◌else◌, Option-cases, length, length-append, Str,
}
use sfproxy.Json.{Rapidjson}
use sfproxy.Zookeeper.{Zookeeper}
use sfproxy.ZkClient.{ZkClient, wget}
use sfproxy.ZkClient.Calls.{
  slash, split_last, instance_read, get_service_instance, get_service_instance_at, get_service,
  get_services,
}
use sfproxy.ZkClient.Healthy.{bind_known, ensure-true}

split_last_joins :
    (path service name : Str) → split_last path ≡ some (service, name) → service ++ name ≡ path
unfolding split_last
split_last_joins [] service name e = cc
split_last_joins (c ∷ path) service name e = elim (Option-cases (split_last path)) [
  | inl last ↦ ground (arith, last, e)
  | inr (r, found) ↦ let ih = split_last_joins path r.0 r.1 found in ground (arith, found, e, ih)
]

module _ (Z : Zookeeper) (J : Rapidjson) (now : ℕ)
    (connect : ZkClient Z → Option (ZkClient Z)) where
  at_last :
      (path service name : Str) (c : ZkClient Z)
      → split_last path ≡ some (service, name)
      → get_service_instance_at Z J now connect path c
        ≡ get_service_instance Z J now connect service name c
  unfolding get_service_instance_at
  at_last path service name c e = rw (e, get_service_instance_at) refl

  connected_reads :
      (service name : Str) (c : ZkClient Z)
      → c.connected ≡ true
      → get_service_instance Z J now connect service name c
        ≡ instance_read Z J now connect service name (wget Z (service ++ (slash ++ name)) c)
  unfolding get_service_instance
  connected_reads service name c up = bind_known _ _ (c, true) (ensure-true Z J now connect c up)

  -- For a connected client, the reading of the instance at a path with a slash in it asks for, and
  -- watches, another path: the service's, a slash, and the name with its own slash.
  pub get_service_instance_at-path :
      (path service name : Str) (c : ZkClient Z)
      → c.connected ≡ true
      → split_last path ≡ some (service, name)
      → (get_service_instance_at Z J now connect path c
          ≡ instance_read Z J now connect service name (wget Z (service ++ (slash ++ name)) c))
        × (service ++ (slash ++ name) ≢ path)
  get_service_instance_at-path path service name c up e =
      (at_last path service name c e ∙ connected_reads service name c up, other)
    where
      other : service ++ (slash ++ name) ≢ path
      other same =
          let joined : length (service ++ (slash ++ name)) ≡ length (service ++ name) =
            ap length (same ∙ sym (split_last_joins path service name e)) in
          omega (
            arith,
            joined,
            length-append service (slash ++ name),
            length-append slash name,
            length-append service name,
          )

  -- Once a service of the root cannot be read, no later one is read: the result, the client and the
  -- cache are those at the failure, whatever services come after it.
  pub get_services-stops :
      (pre post : List Str) (path : Str) (c d e : ZkClient Z)
      → get_services Z J now connect pre c ≡ some (d, true)
      → get_service Z J now connect path d ≡ some (e, false)
      → get_services Z J now connect (pre ++ (path ∷ post)) c ≡ some (e, false)
  unfolding get_services
  get_services-stops [] post path c d e h k =
      let same : c ≡ d = ground (arith, h) in
      bind_known _ _ (e, false)
        (subst (λ x. get_service Z J now connect path x ≡ some (e, false)) (sym same) k)
  get_services-stops (p ∷ pre) post path c d e h k =
      elim (Option-cases (get_service Z J now connect p c)) [
        | inl nothing ↦ absurd (ground (arith, nothing, h))
        | inr ((c1, read), found) ↦
            bind_known _ _ (c1, read) found
            ∙ further read c1 (sym (bind_known _ _ (c1, read) found) ∙ h)
                (λ i. get_services-stops pre post path c1 d e i k)
      ]
    where
      further :
          (read : Bool) (c1 : ZkClient Z)
          → (if read then get_services Z J now connect pre c1 else some (c1, false))
            ≡ some (d, true)
          → (get_services Z J now connect pre c1 ≡ some (d, true)
              → get_services Z J now connect (pre ++ (path ∷ post)) c1 ≡ some (e, false))
          → (if read
              then get_services Z J now connect (pre ++ (path ∷ post)) c1
              else some (c1, false))
            ≡ some (e, false)
      further true c1 g ih = ih g
      further false c1 g ih = absurd (ground (arith, g))
