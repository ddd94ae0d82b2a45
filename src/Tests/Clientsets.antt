-- ===== src/Tests/Clientsets.antt =====
-- Clients of small configurations: limiters are numbers, and so is the world, which counts them.
use kopilot.Base.{
  ◌≡◌, refl, ℕ, suc, String, Option, none, some, if◌then◌else◌, ◌==◌, ltb, ok, err, errorf, done,
  panicked, ◌>>=◌,
}
use kopilot.Clientset.{
  TypedClient, new_clusters, rest_client_of, discovery_of, typed_client_of, new_clientset,
  new_typed, ℤ, pos, RestTypes, RestConfig, RestLibrary, Clientset, or_die, set_config_defaults,
  typed_for_config, rate_limited, clients_for_config, new_for_config, new_for_config_or_die,
}
use kopilot.Program.Clients.{KubeLibrary, hub_clients, kube_clients, kopilot_client}
use kopilot.Clientset.Building.{with_defaults, new_for_config-or_die, new_for_config-Shares}

abbrev types : RestTypes
types = record {
  World = ℕ;
  RateLimiter = ℕ;
  Qps = ℕ;
  Serializer = String;
  MoreConfig = String;
  Client = String;
  Discovery = Option ℕ;
}

abbrev library : RestLibrary types
library = record {
  is_positive_qps = λ q. ltb 0 q;
  new_token_bucket_rate_limiter = λ q b w. (w, suc w);
  rest_client_for = λ c w. (if c.more == "" then err (errorf "no host") else ok c.more, w);
  new_discovery_client_for_config = λ c w. (ok c.rate_limiter, w);
  new_discovery_client_for_config_or_die = λ c w. done (c.rate_limiter, w);
  new_discovery_client = λ c. none;
  without_conversion = "json";
  default_kubernetes_user_agent = "agent";
}

abbrev config : ℕ → ℤ → RestConfig types
config qps burst = record {
  rate_limiter = none;
  qps = qps;
  burst = burst;
  group_version = none;
  api_path = "";
  serializer = none;
  user_agent = "";
  more = "host";
}

abbrev built : Clientset types
built = record {
  discovery_client = some 7;
  kopilot_v1alpha1 = record { rest_client = some "host" };
}

built_test : new_for_config types library (config 5 (pos 10)) 7 ≡ (ok built, 8)
unfolding new_for_config rate_limited clients_for_config typed_for_config set_config_defaults
built_test = refl

-- A burst of 0 is refused by the one constructor only.
refused_test : or_die (new_for_config types library (config 5 (pos 0)) 7) ≡ panicked
unfolding new_for_config rate_limited or_die
refused_test = refl

new_for_config-or_die_example : or_die (new_for_config types library (config 5 (pos 10)) 7) ≡ (
    or_die (rate_limited types library (config 5 (pos 10)) 7) >>= λ d.
    new_for_config_or_die types library d.0 d.1)
unfolding or_die
new_for_config-or_die_example =
    new_for_config-or_die types library (config 5 (pos 10)) 7 (λ c w. refl)

new_for_config-Shares_example :
    (d : RestConfig types) × (l : ℕ) × (k : String) × (u : ℕ) × (v : ℕ) × (d.rate_limiter ≡ some l)
    × ((with_defaults types library d).rate_limiter ≡ some l)
    × (library.rest_client_for (with_defaults types library d) u ≡ (ok k, v))
    × (library.new_discovery_client_for_config d v ≡ (ok (some 7), 8))
    × (built.kopilot_v1alpha1.rest_client ≡ some k)
new_for_config-Shares_example =
    new_for_config-Shares types library (config 5 (pos 10)) 7 built 8 refl built_test

abbrev kube_library : KubeLibrary types
kube_library = record {
  KubeClient = String;
  build_config = λ w. (ok (config 5 (pos 10)), w);
  kube_for_config = λ c w. (ok c.more, w);
}

clients_test :
    hub_clients types library kube_library 7
    ≡ (ok (record { kube_client = "host"; client = built }), 8)
unfolding hub_clients kube_clients kopilot_client new_for_config rate_limited clients_for_config
    typed_for_config set_config_defaults
clients_test = refl

-- A nil pointer has a nil client, but no field.
nil_test :
    (new_clusters {t = types} none "a" ≡ record { client = none; ns = "a" })
    × (discovery_of {t = types} none ≡ none)
    × (typed_client_of {t = types} none ≡ panicked)
unfolding new_clusters rest_client_of discovery_of typed_client_of
nil_test = (refl, refl, refl)

new_test :
    (k : TypedClient types) × (typed_client_of (some (new_clientset types library (some "host")))
      ≡ done k)
    × (new_clusters (some k) "a" ≡ record { client = some "host"; ns = "a" })
unfolding new_clusters rest_client_of typed_client_of new_clientset new_typed
new_test = (_, refl, refl)
