-- ===== src/Agent.antt =====
-- cmd/kopilot-agent/main.go up to the call of `Serve`: the connection to the hub, and the reverse
-- proxy in front of the member cluster's API server. (`Server` has the rest of `main`.)
pub mod Forwarding
use Prim.Native.String.{◌++◌}
use kopilot.Base.{Setup, ready, fatal, String, Table, Bool, true, Result, ok, err, Error, insert}
use kopilot.Hub.Config.{string_var}
use kopilot.Http.{Url, Request, single_host}

-- The part of `tls.Config` that is set.
pub record TlsConfig : Type 0 where
  pub insecure_skip_verify : Bool

abbrev pub dialer_tls : TlsConfig
dialer_tls = record { insecure_skip_verify = true }

-- The flags "connect" and "apiserver", from those that were given.
abbrev pub connect_flag : Table String → String
connect_flag given = string_var given "connect" ""

abbrev pub apiserver_flag : Table String → String
apiserver_flag given = string_var given "apiserver" "kubernetes.default"

-- What `main` calls and the repository does not implement.
pub record AgentEnv : Type 1 where
  pub World : Type 0
  pub WsConn : Type 0
  pub Session : Type 0
  -- `dialer.Dial` with its TLS configuration, and `yamux.Client`.
  pub dial_hub : TlsConfig → String → World → Result WsConn × World
  pub yamux_client : WsConn → World → Result Session × World
  pub url_parse : String → Result Url
  pub read_file : String → World → Result String
  pub join_path : String → String → String
  pub quote : String → String

-- The server that `main` is about to run on the session.
pub record AgentServer (a : AgentEnv) : Type 0 where
  pub session : a.Session
  pub director : Request → Request
  pub root_cas : String

abbrev pub service_account_dir : String
service_account_dir = "/run/secrets/kubernetes.io/serviceaccount"

-- `apiserverProxy.Director`: the header is set behind the proxy's own director.
unfoldable pub agent_director : Url → String → Request → Request
agent_director target token req =
    let out = single_host target req in
    record out { header = insert "Authorization" ("Bearer " ++ token) out.header }

module _ (a : AgentEnv) where
  open a use {
    World, WsConn, Session, dial_hub, yamux_client, url_parse, read_file, join_path, quote,
  }

  -- The files and the URL, once the channel to the hub stands.
  unfoldable pub configure : Session → String → World → Setup (AgentServer a)
  configure session apiserver_addr v = elim (url_parse ("https://" ++ apiserver_addr)) [
    | err er ↦ fatal ("failed to parse apiserver URL: " ++ er.text)
    | ok target ↦ elim (read_file (join_path service_account_dir "token") v) [
      | err er ↦ fatal ("failed to read token: " ++ er.text)
      | ok token ↦ elim (read_file (join_path service_account_dir "ca.crt") v) [
        | err er ↦ fatal ("failed to load CA cert: " ++ er.text)
        | ok ca ↦
            ready
              (record { session = session; director = agent_director target token; root_cas = ca })
      ]
    ]
  ]

  unfoldable pub set_up : String → String → World → Setup (AgentServer a) × World
  set_up connect_url apiserver_addr v =
      let (dialled, v₁) = dial_hub dialer_tls connect_url v in
      elim dialled [
        | err er ↦ (fatal ("failed to dial hub " ++ (quote connect_url ++ (": " ++ er.text))), v₁)
        | ok conn ↦
            let (multiplexed, v₂) = yamux_client conn v₁ in
            elim multiplexed [
              | err er ↦ (fatal ("failed to create multiplex channel: " ++ er.text), v₂)
              | ok session ↦ (configure session apiserver_addr v₂, v₂)
            ]
      ]

  -- `main` up to the server.
  unfoldable pub start_agent : Table String → World → Setup (AgentServer a) × World
  unfolding set_up
  start_agent given v = set_up (connect_flag given) (apiserver_flag given) v
