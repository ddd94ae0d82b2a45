-- ===== src/Tests/Relays.antt =====
-- Hubs that run the same program: the one asked has no session, nor has its first peer; the second
-- has.
use kopilot.Base.{
  true, trim_prefix, ℕ, String, ap, ◌∙◌, List, eq_iff, arith, ◌≡◌, refl, [], ◌∷◌, some, errorf,
  Result, ok, err, Outcome, done, panicked, starved, SlashFree, lookup, false, if◌then◌else◌, ◌==◌,
}
use kopilot.Session.{SessionManager, dial_cluster, dial}
use kopilot.Http.{
  Request, no_body, spent, unread, Response, Writer, fresh, copy_response, write_header, write,
  serve_http,
}
use kopilot.Hub.{Env, State}
use kopilot.Hub.Subresources.{proxy_handler, proxy_body, local_proxy, local_transport, with_cluster}
use kopilot.Hub.Peer.{peer_handler, manager, list_peers, peers_of, peer_addresses, peer_port}
use kopilot.Hub.Relaying.Losing.{RefusesSpent, proxy_handler-LosesBody}
use kopilot.Hub.Relaying.{received}
use kopilot.Hub.Relaying.Meshing.{
  PeerHub, arrived, Links, Lacks, no_more, then_lacks, proxy_handler-FindsSession,
}
use kopilot.Tests.Demo.Segments.{cleaned}
use kopilot.Tests.Demo.{net, env, env-RoutesSegments, config, key, ask, local_url, cluster}

abbrev idle : SessionManager net
idle = record { session_lists = [] }

abbrev serving : SessionManager net
serving = record { session_lists = ("a/c1", 12 ∷ []) ∷ [] }

abbrev brought : Outcome (Writer × State env) → Result Response
brought (done (x, t)) = ok (received x)
brought panicked = err (errorf "EOF")
brought starved = err (errorf "EOF")

-- What the peers know, by their addresses.
abbrev state_at : String → State env
state_at host = if host == "10.0.0.3:7443" then (serving, []) else (idle, [])

-- The hub that is asked has two peers, which answer as a peer's handler does: the first has no
-- session.
abbrev asked : Env
asked = record env {
  url_parse = λ s.
      if s == "https://10.0.0.3:7443/proxy/a/c1"
      then ok (record { scheme = "https"; host = "10.0.0.3:7443"; path = "/proxy/a/c1" })
      else env.url_parse s;
  get_endpoints = λ ns name v. (
    ok (
        record {
          addresses = "10.0.0.1" ∷ "10.0.0.2" ∷ "10.0.0.3" ∷ [];
          ports = record { name = "peer"; port = 7443 } ∷ [];
        }
        ∷ []),
    v,
  );
  peer_round_trip = λ cert out v.
      (brought (peer_handler env config fresh (arrived "10.0.0.1" out) (state_at out.host)), v);
}

abbrev lacking_hub : PeerHub
lacking_hub = record {
  env = env;
  config = config;
  state = (idle, []);
  caller = "10.0.0.1";
  routes = env-RoutesSegments;
}

abbrev serving_hub : PeerHub
serving_hub = record lacking_hub { state = (serving, []) }

first-Links : Links asked config tt "10.0.0.2:7443" lacking_hub [] []
first-Links out x t here e =
    ap
      (λ (host : String).
        (brought (peer_handler env config fresh (arrived "10.0.0.1" out) (state_at host)), []))
      here
    ∙ (λ i. (brought (e i), []))

second-Links : Links asked config tt "10.0.0.3:7443" serving_hub [] []
second-Links out x t here e =
    ap
      (λ (host : String).
        (brought (peer_handler env config fresh (arrived "10.0.0.1" out) (state_at host)), []))
      here
    ∙ (λ i. (brought (e i), []))

clean_test : env.clean_path "/proxy/a/c1/api/v1/nodes" ≡ "/proxy/a/c1/api/v1/nodes"
unfolding cleaned trim_prefix
clean_test = refl

first-Lacks : Lacks asked config tt key "api/v1/nodes" (ask "/" "t") "10.0.0.2:7443" [] []
unfolding dial_cluster dial lookup
first-Lacks = record {
  hub = lacking_hub;
  target = local_url;
  parses = refl;
  cluster = cluster;
  error = errorf "no session found for cluster \"a/c1\"";
  manager_after = idle;
  world_after = [];
  found = refl;
  dialled = refl;
  links = first-Links;
  clean = clean_test;
}

c1-SlashFree : SlashFree "c1"
c1-SlashFree = ((λ h. cc), ((λ h. cc), tt))

a-SlashFree : SlashFree "a"
a-SlashFree = ((λ h. cc), tt)

abbrev answered : Writer
answered = record {
  status = some 200;
  body = "/api/v1/nodes" ∷ [];
  hijacked = false;
  fails = false;
  aborted = false;
}

agent_test : lookup "User-Agent" (ask "/" "t").header ≡ some "kubectl"
unfolding lookup
agent_test = refl

proxy_handler-FindsSession_example :
    proxy_handler asked config
      (some (manager asked config))
      key
      "/api/v1/nodes"
      fresh
      (ask "/" "t")
      (idle, [])
    ≡ done (copy_response (received answered) fresh, (idle, []))
unfolding received proxy_handler proxy_body local_proxy local_transport with_cluster serve_http
    dial_cluster dial lookup list_peers peers_of peer_addresses peer_port copy_response write_header
    write
proxy_handler-FindsSession_example =
    proxy_handler-FindsSession asked config tt key "api/v1/nodes" (ask "/" "t") c1-SlashFree
      (λ h. cc) a-SlashFree (λ h. cc) refl "kubectl" agent_test
      (λ h. ground (arith, eq_iff "kubectl" "")) local_url (λ v. refl) refl ("10.0.0.2:7443" ∷ [])
      "10.0.0.3:7443" [] (((λ h. cc), refl), (((λ h. cc), refl), tt)) fresh idle idle [] [] [] []
      cluster (errorf "no session found for cluster \"a/c1\"") serving_hub answered refl refl refl
      (then_lacks "10.0.0.2:7443" [] [] [] [] first-Lacks (no_more [])) clean_test second-Links
      ((serving, []), refl) (λ h. omega (arith, h))

-- The same over a transport that reads bodies.
abbrev read_body : Request → Result Response → Result Response
read_body out answer = elim out.body [
  | no_body ↦ answer
  | spent ↦ err (errorf "http: invalid Read on closed Body")
  | unread text ↦ answer
]

abbrev reading : Env
reading = record env {
  peer_round_trip = λ cert out v. (
    read_body out (brought (peer_handler env config fresh (arrived "10.0.0.1" out) (serving, []))),
    v,
  );
}

reading-RefusesSpent : RefusesSpent reading tt
reading-RefusesSpent out v e = (
  errorf "http: invalid Read on closed Body",
  v,
  rw e refl,
  λ h. ground (arith, eq_iff "http: invalid Read on closed Body" ""),
)

proxy_handler-LosesBody_example :
    (v : List ℕ) × (proxy_handler reading config
        (some (manager reading config))
        key
        "/api/v1/nodes"
        fresh
        (record (ask "/" "t") { body = unread "{}" })
        (idle, [])
      ≡ done (write_header 502 fresh, (idle, v)))
unfolding dial_cluster dial lookup list_peers peers_of peer_addresses peer_port
proxy_handler-LosesBody_example =
    proxy_handler-LosesBody reading tt config (λ v. refl) reading-RefusesSpent key "api/v1/nodes"
      "{}" "10.0.0.2:7443" [] local_url fresh (record (ask "/" "t") { body = unread "{}" }) idle
      idle [] [] cluster (errorf "no session found for cluster \"a/c1\"") c1-SlashFree (λ h. cc)
      (((λ h. cc), refl), tt) refl refl refl refl refl

-- A path that is not clean is redirected, and a body that cannot be copied breaks the answer off.
redirected_test :
    peer_handler env config fresh (ask "/proxy/a/c1//pods" "t") (serving, [])
    ≡ done (write_header 301 fresh, (serving, []))
unfolding peer_handler cleaned trim_prefix
redirected_test = refl

broken_test :
    (copy_response (record { status = 200; body = "half"; broken = true }) fresh).aborted ≡ true
unfolding copy_response
broken_test = refl
