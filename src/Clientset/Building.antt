-- ===== src/Clientset/Building.antt =====
-- What the clients of a configuration are built from, and how the constructors relate.
use kopilot.Base.{
  ◌≡◌, inl, inr, refl, ap, Bool-cases, Option-cases, true, some, Error, Result, ok, err,
  Result-cases, ◌>>=◌, arith,
}
use kopilot.Clientset.{
  RestTypes, RestConfig, RestLibrary, Clientset, TypedClient, or_die, set_config_defaults,
  typed_for_config, typed_for_config_or_die, rate_limited, clients_for_config, new_for_config,
  new_for_config_or_die, is_positive,
}

module _ (t : RestTypes) (lib : RestLibrary t) where
  open t use {World, RateLimiter, Client, Discovery}
  open lib use {
    is_positive_qps, new_token_bucket_rate_limiter, rest_client_for,
    new_discovery_client_for_config, new_discovery_client_for_config_or_die,
  }

  -- `NewDiscoveryClientForConfigOrDie` panics if there is an error, and is the other one elsewise.
  abbrev pub DiesOnError : Type 0
  DiesOnError =
      (c : RestConfig t) (w : World)
      → new_discovery_client_for_config_or_die c w ≡ or_die (new_discovery_client_for_config c w)

  clients_for_config-or_die :
      (c : RestConfig t) (w : World)
      → DiesOnError
      → or_die (clients_for_config t lib c w) ≡ new_for_config_or_die t lib c w
  unfolding clients_for_config new_for_config_or_die typed_for_config_or_die or_die
  clients_for_config-or_die c w dies = ground (arith, dies c (typed_for_config t lib c w).1)

  limited-or_die :
      (x : Result (RestConfig t) × World)
      → DiesOnError
      → or_die {A = Clientset t}
          (elim x.0 [ err e ↦ (err e, x.1) | ok config ↦ clients_for_config t lib config x.1 ])
        ≡ (or_die x >>= λ d. new_for_config_or_die t lib d.0 d.1)
  unfolding or_die
  limited-or_die (ok config, w) dies = clients_for_config-or_die config w dies
  limited-or_die (err e, w) dies = refl

  -- `NewForConfig`, with a panic for an error, is its first `if` and then `NewForConfigOrDie` on
  -- the copy which that leaves, provided that the discovery client's constructors differ as
  -- documented.
  pub new_for_config-or_die :
      (c : RestConfig t) (w : World)
      → DiesOnError
      → or_die (new_for_config t lib c w)
        ≡ (or_die (rate_limited t lib c w) >>= λ d. new_for_config_or_die t lib d.0 d.1)
  unfolding new_for_config
  new_for_config-or_die c w dies = limited-or_die (rate_limited t lib c w) dies

  -- The copy that the typed client is built from.
  abbrev pub with_defaults : RestConfig t → RestConfig t
  with_defaults c = elim (set_config_defaults t lib c) [ ok d ↦ d | err e ↦ c ]

  found-ok :
      (k : TypedClient t) (cs : Clientset t) (w' : World) (y : Result Discovery × World)
      → elim y.0 as (λ r. Result (Clientset t) × World) [
        | err e ↦ (err e, y.1)
        | ok d ↦ (ok (record { discovery_client = d; kopilot_v1alpha1 = k }), y.1)
      ]
        ≡ (ok cs, w')
      → (y ≡ (ok cs.discovery_client, w')) × (cs.kopilot_v1alpha1 ≡ k)
  found-ok k cs w' (ok d, v) e = (cc, cc)
  found-ok k cs w' (err er, v) e = absurd (cc)

  typed_for_config-built :
      (c : RestConfig t) (w : World) (k : Client)
      → (rest_client_for (with_defaults c) w).0 ≡ ok k
      → typed_for_config t lib c w
        ≡ (ok (record { rest_client = some k }), (rest_client_for (with_defaults c) w).1)
  unfolding typed_for_config set_config_defaults
  typed_for_config-built c w k built = rw built refl

  typed_for_config-failed :
      (c : RestConfig t) (w : World) (er : Error)
      → (rest_client_for (with_defaults c) w).0 ≡ err er
      → (typed_for_config t lib c w).0 ≡ err er
  unfolding typed_for_config set_config_defaults
  typed_for_config-failed c w er failed = rw failed refl

  clients_for_config-ok :
      (c : RestConfig t) (w : World) (cs : Clientset t) (w' : World)
      → clients_for_config t lib c w ≡ (ok cs, w')
      → (k : Client) × (v : World) × (rest_client_for (with_defaults c) w ≡ (ok k, v))
        × (new_discovery_client_for_config c v ≡ (ok cs.discovery_client, w'))
        × (cs.kopilot_v1alpha1.rest_client ≡ some k)
  unfolding clients_for_config
  clients_for_config-ok c w cs w' e = elim (Result-cases (rest_client_for (with_defaults c) w).0) [
    | inl (k, built) ↦
        let v = (rest_client_for (with_defaults c) w).1 in
        let (found, same) =
          found-ok (record { rest_client = some k }) cs w' (new_discovery_client_for_config c v)
            (rw (typed_for_config-built c w k built) at e) in
        (k, v, (λ i. (built i, v)), found, ap (λ (x : TypedClient t). x.rest_client) same)
    | inr (er, failed) ↦ absurd (ground (arith, typed_for_config-failed c w er failed))
  ]

  rate_limited-some :
      (c d : RestConfig t) (w : World)
      → is_positive_qps c.qps ≡ true
      → (rate_limited t lib c w).0 ≡ ok d
      → (l : RateLimiter) × (d.rate_limiter ≡ some l)
  unfolding rate_limited
  rate_limited-some c d w q e = elim (Option-cases c.rate_limiter) [
    | inl missing ↦ elim (Bool-cases (is_positive c.burst)) [
      | inl yes_burst ↦ ((new_token_bucket_rate_limiter c.qps c.burst w).0, ground arith)
      | inr no_burst ↦ absurd (ground arith)
    ]
    | inr (l, given) ↦ (l, ground arith)
  ]

  -- A configuration with a positive QPS, from which `NewForConfig` succeeds: the typed client's and
  -- the discovery client's configurations, from which the two are built one after the other, hold
  -- one and the same rate limiter.
  pub new_for_config-Shares :
      (c : RestConfig t) (w : World) (cs : Clientset t) (w' : World)
      → is_positive_qps c.qps ≡ true
      → new_for_config t lib c w ≡ (ok cs, w')
      → (d : RestConfig t) × (l : RateLimiter) × (k : Client) × (u : World) × (v : World)
        × (d.rate_limiter ≡ some l)
        × ((with_defaults d).rate_limiter ≡ some l)
        × (rest_client_for (with_defaults d) u ≡ (ok k, v))
        × (new_discovery_client_for_config d v ≡ (ok cs.discovery_client, w'))
        × (cs.kopilot_v1alpha1.rest_client ≡ some k)
  unfolding new_for_config
  new_for_config-Shares c w cs w' q e = elim (Result-cases (rate_limited t lib c w).0) [
    | inl (d, limited) ↦
        let u = (rate_limited t lib c w).1 in
        let (l, holds) = rate_limited-some c d w q limited in
        let (k, v, typed, discovery, same) =
          clients_for_config-ok d u cs w' (rw (limited, new_for_config) at e) in
        (d, l, k, u, v, holds, unfold set_config_defaults in holds, typed, discovery, same)
    | inr (er, refused) ↦ absurd (ground arith)
  ]
