-- ===== src/Clientset.antt =====
-- pkg/client/clientset/versioned/clientset.go, and in its directory
-- typed/kopilot/v1alpha1/kopilot_client.go: the clients that a `rest.Config` gives. The code copies
-- the configuration before it changes it, so a caller's own is as it was.
pub mod Building
use kopilot.Base.{
  ℕ, zero, suc, String, Bool, true, false, ◌&&◌, Option, none, some, if◌then◌else◌, ◌==◌, Error,
  errorf, Result, ok, err, Outcome, ◌>>=◌, done, panicked,
}
use kopilot.Api.Scheme.{GroupVersion, scheme_group_version}

-- Go's `int`.
pub data ℤ : Type 0 where
  pos negsuc : ℕ → ℤ

abbrev pub is_positive : ℤ → Bool
is_positive (pos zero) = false
is_positive (pos (suc k)) = true
is_positive (negsuc k) = false

-- `limiter == nil`.
abbrev is_nil : {A : Type 0} → Option A → Bool
is_nil none = true
is_nil (some a) = false

-- `if err != nil { panic(err) }`.
unfoldable pub or_die : {A W : Type 0} → Result A × W → Outcome (A × W)
or_die (ok a, w) = done (a, w)
or_die (err e, w) = panicked

-- Types of client-go. `World` is the state of all that is outside, allocations included.
pub record RestTypes : Type 1 where
  pub World : Type 0
  pub RateLimiter : Type 0
  -- A float32.
  pub Qps : Type 0
  pub Serializer : Type 0
  pub MoreConfig : Type 0
  pub Client : Type 0
  pub Discovery : Type 0

-- `rest.Config`; `more` are the fields that are only passed on.
pub record RestConfig (t : RestTypes) : Type 0 where
  pub rate_limiter : Option t.RateLimiter
  pub qps : t.Qps
  pub burst : ℤ
  pub group_version : Option GroupVersion
  pub api_path : String
  pub serializer : Option t.Serializer
  pub user_agent : String
  pub more : t.MoreConfig

-- Functions of client-go, and the serializer `scheme.Codecs.WithoutConversion()`.
pub record RestLibrary (t : RestTypes) : Type 0 where
  -- `QPS > 0`.
  pub is_positive_qps : t.Qps → Bool
  pub new_token_bucket_rate_limiter : t.Qps → ℤ → t.World → t.RateLimiter × t.World
  pub rest_client_for : RestConfig t → t.World → Result t.Client × t.World
  pub new_discovery_client_for_config : RestConfig t → t.World → Result t.Discovery × t.World
  pub new_discovery_client_for_config_or_die :
      RestConfig t → t.World → Outcome (t.Discovery × t.World)
  pub new_discovery_client : Option t.Client → t.Discovery
  pub without_conversion : t.Serializer
  pub default_kubernetes_user_agent : String

-- `KopilotV1alpha1Client`; a `rest.Interface` may be nil.
pub record TypedClient (t : RestTypes) : Type 0 where
  pub rest_client : Option t.Client

-- `clusters`.
pub record ClustersClient (t : RestTypes) : Type 0 where
  pub client : Option t.Client
  pub ns : String

pub record Clientset (t : RestTypes) : Type 0 where
  pub discovery_client : t.Discovery
  pub kopilot_v1alpha1 : TypedClient t

-- The methods of the clients. A pointer that may be nil is an `Option`.
module _ {t : RestTypes} where
  open t use {World, Client, Discovery}

  -- `RESTClient`.
  unfoldable pub rest_client_of : Option (TypedClient t) → Option Client
  rest_client_of none = none
  rest_client_of (some c) = c.rest_client

  -- `newClusters` and `Clusters`.
  unfoldable pub new_clusters : Option (TypedClient t) → String → ClustersClient t
  new_clusters c namespace = record { client = rest_client_of c; ns = namespace }

  -- `Discovery`.
  unfoldable pub discovery_of : Option (Clientset t) → Option Discovery
  discovery_of none = none
  discovery_of (some cs) = some cs.discovery_client

  -- `KopilotV1alpha1`, which reads a field through the pointer.
  unfoldable pub typed_client_of : Option (Clientset t) → Outcome (TypedClient t)
  typed_client_of none = panicked
  typed_client_of (some cs) = done cs.kopilot_v1alpha1

module _ (t : RestTypes) (lib : RestLibrary t) where
  open t use {World, Client, Discovery}
  open lib use {
    is_positive_qps, new_token_bucket_rate_limiter, rest_client_for,
    new_discovery_client_for_config, new_discovery_client_for_config_or_die, new_discovery_client,
    without_conversion, default_kubernetes_user_agent,
  }

  -- `setConfigDefaults`, by the configuration that it leaves.
  unfoldable pub set_config_defaults : RestConfig t → Result (RestConfig t)
  set_config_defaults config = ok (record config {
    group_version = some scheme_group_version;
    api_path = "/apis";
    serializer = some without_conversion;
    user_agent =
        if config.user_agent == "" then default_kubernetes_user_agent else config.user_agent;
  })

  -- `NewForConfig` of the typed client.
  unfoldable pub typed_for_config : RestConfig t → World → Result (TypedClient t) × World
  typed_for_config c w = elim (set_config_defaults c) [
    | err e ↦ (err e, w)
    | ok config ↦
        let (r, w') = rest_client_for config w in
        elim r [ err e ↦ (err e, w') | ok client ↦ (ok (record { rest_client = some client }), w') ]
  ]

  unfoldable pub typed_for_config_or_die : RestConfig t → World → Outcome (TypedClient t × World)
  typed_for_config_or_die c w = or_die (typed_for_config c w)

  -- `New` of the typed client.
  unfoldable pub new_typed : Option Client → TypedClient t
  new_typed c = record { rest_client = c }

  abbrev pub burst_required : Error
  burst_required =
      errorf
        "burst is required to be greater than 0 when RateLimiter is not set and QPS is set to greater than 0"

  -- The first `if` of `NewForConfig`, by the shallow copy that it leaves.
  unfoldable pub rate_limited : RestConfig t → World → Result (RestConfig t) × World
  rate_limited c w =
      if is_nil c.rate_limiter && is_positive_qps c.qps
      then (if is_positive c.burst
          then (let (limiter, w') = new_token_bucket_rate_limiter c.qps c.burst w in
              (ok (record c { rate_limiter = some limiter }), w'))
          else (err burst_required, w))
      else (ok c, w)

  -- `NewForConfig` behind that, and behind its call of the typed one.
  abbrev pub with_discovery :
      RestConfig t → Result (TypedClient t) × World → Result (Clientset t) × World
  with_discovery c (err e, w) = (err e, w)
  with_discovery c (ok k, w) =
      let (found, w') = new_discovery_client_for_config c w in
      elim found [
        | err e ↦ (err e, w')
        | ok d ↦ (ok (record { discovery_client = d; kopilot_v1alpha1 = k }), w')
      ]

  unfoldable pub clients_for_config : RestConfig t → World → Result (Clientset t) × World
  clients_for_config c w = with_discovery c (typed_for_config c w)

  unfoldable pub new_for_config : RestConfig t → World → Result (Clientset t) × World
  new_for_config c w =
      let (r, w') = rate_limited c w in
      elim r [ err e ↦ (err e, w') | ok config ↦ clients_for_config config w' ]

  unfoldable pub new_for_config_or_die : RestConfig t → World → Outcome (Clientset t × World)
  new_for_config_or_die c w = do
    (k, w₁) ← typed_for_config_or_die c w
    (d, w₂) ← new_discovery_client_for_config_or_die c w₁
    done (record { discovery_client = d; kopilot_v1alpha1 = k }, w₂)

  -- `New`.
  unfoldable pub new_clientset : Option Client → Clientset t
  new_clientset c = record {
    discovery_client = new_discovery_client c;
    kopilot_v1alpha1 = new_typed c;
  }
