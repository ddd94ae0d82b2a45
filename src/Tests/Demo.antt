-- ===== src/Tests/Demo.antt =====
-- A small network and a hub's surroundings that compute, for the tests. Sessions are numbers, those
-- from 10 on are alive; the world is the list of the sessions closed so far.
pub mod Segments
use Prim.Native.String.{◌++◌}
use kopilot.Base.{
  ℕ, ◌≡◌, ◌<◌, refl, String, List, [], ◌∷◌, Bool, true, false, ◌||◌, Option, none, some, any, ltb,
  nat_eq, if◌then◌else◌, ◌==◌, Error, ErrorKind, plain, not_found, errorf, Result, ok, err, is_ok,
  arith, Table, lookup, insert, done, SlashFree,
}
use kopilot.Api.{Kube, Cluster, NamespacedName}
use kopilot.Session.{
  Network, IntnInRange, SessionManager, new_session_manager, add_cluster_session, dial,
  dial_cluster,
}
use kopilot.Session.Dialling.{Closing}
use kopilot.Session.Failover.{IsSteady}
use kopilot.Http.{no_body, Url, Request, Response, Writer}
use kopilot.Hub.{Env, EndpointSubset, EndpointPort}
use kopilot.Hub.Peer.Routing.{RoutesSegments}
use kopilot.Hub.Config.{Config, defaults}
use Segments.{segments, segments_lem, cleaned}

abbrev pub alive : ℕ → Bool
alive s = ltb 9 s

abbrev pub net : Network
net = record {
  World = List ℕ;
  Session = ℕ;
  Conn = ℕ;
  intn = λ k w. (0, w);
  open_conn = λ s w. (if alive s then ok s else err (errorf "session shutdown"), w);
  close = λ s w. s ∷ w;
  key_string = λ key. key.namespace ++ ("/" ++ key.name);
  quote = λ s. "\"" ++ (s ++ "\"");
}

pub net-IntnInRange : IntnInRange net
net-IntnInRange k w h = h

pub net-IsSteady : IsSteady net alive
net-IsSteady s w = ground arith

pub closed_head : (s : ℕ) (w : List ℕ) → any (nat_eq s) (s ∷ w) ≡ true
closed_head s w = ground arith

pub closed_tail : (s t : ℕ) (w : List ℕ) → any (nat_eq s) w ≡ true → any (nat_eq s) (t ∷ w) ≡ true
closed_tail s t w h = ground arith

abbrev pub closing : Closing net
closing = record {
  closed = λ s w. any (nat_eq s) w;
  closed-close = λ s w. closed_head s w;
  closed-close_other = λ s t w h. closed_tail s t w h;
  closed-open_conn = λ s t w h. h;
  closed-intn = λ s k w h. h;
}

abbrev pub kube : Kube
kube = record { TypeMeta = Unit {0}; ObjectMeta = String; ListMeta = ℕ }

abbrev pub key : NamespacedName
key = record { namespace = "a"; name = "c1" }

abbrev pub cluster : Cluster kube
cluster = record { type_meta = tt; object_meta = "c1"; token = "t" }

abbrev pub missing : Error
missing = record { kind = not_found; text = "clusters not found" }

abbrev pub local_url : Url
local_url = record { scheme = "http"; host = "127.0.0.1"; path = "" }

abbrev pub peer_url : Url
peer_url = record { scheme = "https"; host = "10.0.0.2:7443"; path = "/proxy/a/c1" }

abbrev pub endpoints : List EndpointSubset
endpoints =
    record {
      addresses = "10.0.0.1" ∷ "10.0.0.2" ∷ [];
      ports = record { name = "https"; port = 6443 } ∷ record { name = "peer"; port = 7443 } ∷ [];
    }
    ∷ []

abbrev pub env : Env
env = record {
  net = net;
  kube = kube;
  get_cluster = λ ns name w. (if name == "c1" then ok cluster else err missing, w);
  url_parse = λ s.
      if s == "http://127.0.0.1"
      then ok local_url
      else (if s == "https://10.0.0.2:7443/proxy/a/c1"
          then ok peer_url
          else err (errorf "bad URL"));
  decimal = λ n. if nat_eq n 7443 then "7443" else "6443";
  join_path = λ d f. d ++ ("/" ++ f);
  subresource_path = λ name k. "/clusters/" ++ (k.name ++ ("/" ++ name));
  Template = String;
  template_parse = λ s. ok s;
  template_execute = λ s filled. elim (lookup "connectURL" filled) [
    | none ↦ err (errorf "no URL")
    | some u ↦ ok (s ++ u)
  ];
  WsConn = ℕ;
  upgrade = λ w r v. ((ok 12, w), v);
  yamux_server = λ c v. (ok c, v);
  round_trip = λ c r v. (ok (record { status = 200; body = r.path; broken = false }), v);
  Certificate = Unit {0};
  load_key_pair = λ c k v. ok tt;
  peer_round_trip = λ c r v. (ok (record { status = 200; body = r.path; broken = false }), v);
  get_endpoints = λ ns name v. (ok endpoints, v);
  route_vars = segments;
  clean_path = cleaned;
  agent_yaml_template = "connect: ";
}

pub env-RoutesSegments : RoutesSegments env
env-RoutesSegments namespace name rest f n f' n' clean = segments_lem namespace name rest f f'

abbrev pub config : Config
config = record defaults { ip = "10.0.0.1"; agent_image = "agent"; public_addr = "hub" }

abbrev pub ask : String → String → Request
ask path token = record {
  method = "GET";
  scheme = "";
  host = "";
  path = path;
  query = ("token", token) ∷ [];
  header = ("User-Agent", "kubectl") ∷ [];
  body = no_body;
  client = some "10.0.0.9";
}

pub a-SlashFree : SlashFree "a"
a-SlashFree = ((λ h. cc), tt)

abbrev pub idle_manager : SessionManager net
idle_manager = new_session_manager net

abbrev pub connected : SessionManager net
connected = add_cluster_session net key 12 idle_manager

pub dials_test : dial_cluster net key connected [] ≡ done (ok 12, connected, [])
unfolding dial_cluster dial lookup insert add_cluster_session new_session_manager
dials_test = refl
