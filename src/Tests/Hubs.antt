-- ===== src/Tests/Hubs.antt =====
-- A hub at work: an agent connects, requests are refused, a peer serves what the hub cannot.
use kopilot.Base.{
  ◌≢◌, true, trim_prefix, ◌≡◌, ◌↔◌, ◌⊎◌, inl, inr, In, refl, ℕ, String, List, [], ◌∷◌, false, none,
  some, done, panicked, ok, is_ok, lookup, arith, SlashFree, errorf,
}
use kopilot.Session.{add_cluster_session}
use kopilot.Http.{Writer, fresh, query_get, http_error, write}
use kopilot.Hub.{EndpointSubset}
use kopilot.Hub.Subresources.{
  with_cluster, with_token, agent_body, connect_body, connect_handler, agent_handler, proxy_handler,
  connect_url, next_peer,
}
use kopilot.Hub.Subresources.Access.{
  IsAuthentic, refusal, connect_handler-IsAuthentic, refusal_lem, agent_handler-panics_iff,
}
use kopilot.Hub.Proxying.{DialsOnce, proxy_handler-DialsOnce}
use kopilot.Hub.Peer.{
  peer_handler, manager, try_next_peer, peer_port, peer_addresses, peers_of, list_peers,
}
use kopilot.Hub.Peer.Rounds.{Ends}
use kopilot.Hub.Peer.Listing.{IsListing, list_peers-IsListing, list_peers-fails_iff}
use kopilot.Hub.Peer.Search.{peer_request, first_answer, try_next_peer-first_answer}
use kopilot.Hub.Peer.Routing.{peer_handler-peer_request}
use kopilot.Hub.Served.{new_connect_subresource, hub_subresources}
use kopilot.Hub.Served.Touching
use kopilot.Hub.Served.Touching.{IsHandler, Touches, hub_subresources-Touches}
use kopilot.Hub.System.{Reach, starts, steps, connects, WasPresented, dial_cluster-WasPresented}
use kopilot.Tests.Demo.Segments.{cleaned}
use kopilot.Tests.Demo.{
  net, net-IntnInRange, env, env-RoutesSegments, config, key, ask, local_url, a-SlashFree,
  idle_manager, connected, dials_test,
}

c1-SlashFree : SlashFree "c1"
c1-SlashFree = ((λ h. cc), ((λ h. cc), tt))

registers_test :
    connect_handler env config key fresh (ask "/connect" "t") (idle_manager, [])
    ≡ done (fresh, (connected, []))
unfolding connect_handler connect_body with_cluster with_token query_get lookup
registers_test = refl

refuses_test :
    connect_handler env config key fresh (ask "/connect" "guess") (idle_manager, [])
    ≡ done (http_error "Unauthorized" 401 fresh, (idle_manager, []))
unfolding connect_handler with_cluster with_token query_get lookup
refuses_test = refl

connect_handler-IsAuthentic_example :
    (connected ≡ idle_manager)
    ⊎ ((s : ℕ) × IsAuthentic env config key (ask "/connect" "t") []
        × (connected ≡ add_cluster_session net key s idle_manager))
connect_handler-IsAuthentic_example =
    connect_handler-IsAuthentic env config key fresh fresh (ask "/connect" "t") idle_manager
      connected [] [] registers_test

unauthorized :
    refusal env config key
      (env.get_cluster key.namespace key.name []).0
      (query_get (ask "/agent" "guess") "token")
    ≡ some 401
unfolding query_get lookup
unauthorized = refl

refusal_lem_example :
    (w : Writer) × (w.status ≡ some 401)
    × (agent_handler env config key fresh (ask "/agent" "guess") (idle_manager, [])
        ≡ done (w, (idle_manager, [])))
    × (connect_handler env config key fresh (ask "/agent" "guess") (idle_manager, [])
        ≡ done (w, (idle_manager, [])))
refusal_lem_example =
    refusal_lem env config key (ask "/agent" "guess") idle_manager [] 401 unauthorized

abbrev broken_pipe : Writer
broken_pipe = record fresh { fails = true }

agent_handler-panics_iff_example :
    (agent_handler env config key broken_pipe (ask "/agent" "t") (idle_manager, []) ≡ panicked) ↔ (
      IsAuthentic env config key (ask "/agent" "t") []
      × ((is_ok (env.template_parse env.agent_yaml_template) ≡ false)
          ⊎ ((tmpl : String) × (env.template_parse env.agent_yaml_template ≡ ok tmpl)
              × (is_ok (
                    env.template_execute tmpl (
                      ("imageName", config.agent_image)
                      ∷ (
                        "connectURL",
                        connect_url env config key (query_get (ask "/agent" "t") "token"),
                      )
                      ∷ []))
                  ≡ false))
          ⊎ ((tmpl : String) × (text : String) × (env.template_parse env.agent_yaml_template
                ≡ ok tmpl)
              × (env.template_execute tmpl (
                    ("imageName", config.agent_image)
                    ∷ (
                      "connectURL",
                      connect_url env config key (query_get (ask "/agent" "t") "token"),
                    )
                    ∷ [])
                  ≡ ok text)
              × (text ≢ "")
              × ((broken_pipe.fails ≡ true) ⊎ (broken_pipe.hijacked ≡ true)))))
agent_handler-panics_iff_example =
    agent_handler-panics_iff env config key broken_pipe (ask "/agent" "t") idle_manager []

manifest_test :
    agent_handler env config key fresh (ask "/agent" "t") (connected, [])
    ≡ done (write "connect: wss://hub/clusters/c1/connect?token=t" fresh, (connected, []))
unfolding agent_handler agent_body with_cluster with_token query_get lookup
manifest_test = refl

proxy_handler-DialsOnce_example :
    Ends env config key
      (λ s. DialsOnce env config key connected s.0)
      (proxy_handler env config
        (some (manager env config))
        key
        "/api/v1/nodes"
        fresh
        (ask "/clusters/c1/proxy/api/v1/nodes" "t")
        (connected, []))
proxy_handler-DialsOnce_example =
    proxy_handler-DialsOnce env config key net-IntnInRange local_url refl
      (some (manager env config)) (inr refl) "/api/v1/nodes" fresh
      (ask "/clusters/c1/proxy/api/v1/nodes" "t") connected []

abbrev subset : EndpointSubset
subset = record {
  addresses = "10.0.0.1" ∷ "10.0.0.2" ∷ [];
  ports = record { name = "https"; port = 6443 } ∷ record { name = "peer"; port = 7443 } ∷ [];
}

list_peers_test : list_peers env config [] ≡ (ok ("10.0.0.2:7443" ∷ []), [])
unfolding list_peers peers_of peer_addresses peer_port
list_peers_test = refl

list_peers-IsListing_example :
    (peers : List String) × (list_peers env config [] ≡ (ok peers, []))
    × IsListing env config
        (record { name = "https"; port = 6443 })
        (record { name = "peer"; port = 7443 } ∷ [])
        subset.addresses
        peers
list_peers-IsListing_example =
    list_peers-IsListing env config [] [] subset [] (record { name = "https"; port = 6443 })
      (record { name = "peer"; port = 7443 } ∷ []) refl refl

list_peers-fails_iff_example : (is_ok (list_peers env config []).0 ≡ false) ↔ (
    (is_ok (env.get_endpoints config.service_namespace config.service_name []).0 ≡ false)
    ⊎ ((env.get_endpoints config.service_namespace config.service_name []).0 ≡ ok [])
    ⊎ ((s : EndpointSubset) × (more : List EndpointSubset) × ((env.get_endpoints
            config.service_namespace config.service_name []).0
          ≡ ok (s ∷ more))
        × (s.ports ≡ [])))
list_peers-fails_iff_example = list_peers-fails_iff env config []

user_agent_test : lookup "User-Agent" (ask "/api/v1/nodes" "t").header ≡ some "kubectl"
unfolding lookup
user_agent_test = refl

try_next_peer-first_answer_example :
    try_next_peer env config 2
      (next_peer ("10.0.0.2:7443" ∷ []))
      0
      key
      fresh
      (ask "/api/v1/nodes" "t")
      (errorf "no session")
      (idle_manager, [])
    ≡ done (
        first_answer env tt
          (peer_request key "/api/v1/nodes" (ask "/api/v1/nodes" "t"))
          ("10.0.0.2:7443" ∷ [])
          fresh
          (idle_manager, []))
try_next_peer-first_answer_example =
    try_next_peer-first_answer env config tt (λ v. refl) key (λ h. cc) c1-SlashFree "api/v1/nodes"
      "kubectl" ("10.0.0.2:7443" ∷ []) 2 fresh (ask "/api/v1/nodes" "t") (errorf "no session")
      (idle_manager, []) (((λ h. cc), refl), tt) refl user_agent_test refl (omega arith)

clean_test : env.clean_path "/proxy/a/c1/api/v1/nodes" ≡ "/proxy/a/c1/api/v1/nodes"
unfolding cleaned trim_prefix
clean_test = refl

peer_handler-peer_request_example :
    peer_handler env config fresh
      (peer_request key "/api/v1/nodes" (ask "" "t") "10.0.0.2:7443")
      (connected, [])
    ≡ proxy_handler env config none key "/api/v1/nodes" fresh
        (peer_request key "/api/v1/nodes" (ask "" "t") "10.0.0.2:7443")
        (connected, [])
peer_handler-peer_request_example =
    peer_handler-peer_request env env-RoutesSegments config key "api/v1/nodes" "10.0.0.2:7443" fresh
      (ask "" "t") (connected, []) a-SlashFree (λ h. cc) c1-SlashFree (λ h. cc) clean_test

connected-Reach : Reach env config (connected, [])
connected-Reach =
    steps (starts [])
      (connects key fresh fresh (ask "/connect" "t") (connected, []) a-SlashFree registers_test)

dial_cluster-WasPresented_example :
    (sess : ℕ) × (u : List ℕ) × ((net.open_conn sess u).0 ≡ ok 12)
    × WasPresented env config key sess
dial_cluster-WasPresented_example =
    dial_cluster-WasPresented env config net-IntnInRange local_url refl (λ k. refl) connected-Reach
      key 12 connected [] a-SlashFree dials_test

connect_listed : In (new_connect_subresource env config) (hub_subresources env config)
unfolding hub_subresources
connect_listed = inr (inl refl)

connects-IsHandler :
    IsHandler env config (new_connect_subresource env config) key (connect_handler env config key)
unfolding new_connect_subresource
connects-IsHandler = Touching.connects

hub_subresources-Touches_example :
    Touches env config
      (new_connect_subresource env config).name
      key
      (ask "/connect" "t")
      []
      idle_manager
      connected
hub_subresources-Touches_example =
    hub_subresources-Touches env config net-IntnInRange local_url refl
      (new_connect_subresource env config) key (connect_handler env config key) fresh fresh
      (ask "/connect" "t") idle_manager connected [] [] connect_listed connects-IsHandler
      registers_test
