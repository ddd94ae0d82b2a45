-- ===== src/Hub.antt =====
-- The hub's surroundings: what pkg/hub/cluster/subresources.go and pkg/hub/peer/server.go call and
-- the repository does not implement; and pkg/hub/config.go.
pub mod Config
pub mod Subresources
pub mod Peer
pub mod Proxying
pub mod Relaying
pub mod Concurrent
pub mod System
pub mod Served
pub mod Startup
use kopilot.Base.{
  ℕ, String, List, Option, Table, Error, Result, Outcome, ErrorKind, not_found, Bool, true, false,
}
use kopilot.Api.{Kube, Cluster, NamespacedName}
use kopilot.Session.{Network, SessionManager}
use kopilot.Http.{Url, Request, Response, Writer}

-- The part of `corev1.Endpoints` that is read.
pub record EndpointPort : Type 0 where
  pub name : String
  pub port : ℕ

pub record EndpointSubset : Type 0 where
  pub addresses : List String
  pub ports : List EndpointPort

pub record Env : Type 1 where
  pub net : Network
  pub open net use *
  pub kube : Kube
  -- `client.KopilotV1alpha1().Clusters(ns).Get(…, name, …)` and `apierrors.IsNotFound`.
  pub get_cluster : String → String → World → Result (Cluster kube) × World
  -- `url.Parse`, the decimal verb `%d`, `filepath.Join`, and the path of a subresource by its name.
  pub url_parse : String → Result Url
  pub decimal : ℕ → String
  pub join_path : String → String → String
  pub subresource_path : String → NamespacedName → String
  -- text/template: `Parse`, and `Execute` as the text that it writes.
  pub Template : Type 0
  pub template_parse : String → Result Template
  pub template_execute : Template → Table String → Result String
  -- gorilla/websocket and yamux: `Upgrade`, and `Server` on the connection below it.
  pub WsConn : Type 0
  pub upgrade : Writer → Request → World → (Result WsConn × Writer) × World
  pub yamux_server : WsConn → World → Result Session × World
  -- `http.Transport`: one request over a connection that was dialled, or over TLS to a peer.
  pub round_trip : Conn → Request → World → Result Response × World
  pub Certificate : Type 0
  pub load_key_pair : String → String → World → Result Certificate
  pub peer_round_trip : Certificate → Request → World → Result Response × World
  -- The endpoints of a service, and the variables of the route "/proxy/{namespace}/{name}".
  pub get_endpoints : String → String → World → Result (List EndpointSubset) × World
  pub route_vars : String → Option (String × String)
  -- gorilla/mux: the path that it redirects to, if that is another.
  pub clean_path : String → String
  -- kopilot-agent.yaml, which the build embeds.
  pub agent_yaml_template : String

-- What a handler reads and changes besides its response.
abbrev pub State : Env → Type 0
State e = SessionManager e.net × e.World

abbrev pub Handler : Env → Type 0
Handler e = Writer → Request → State e → Outcome (Writer × State e)

abbrev pub is_not_found : Error → Bool
is_not_found e = elim e.kind [ not_found ↦ true | _ ↦ false ]
