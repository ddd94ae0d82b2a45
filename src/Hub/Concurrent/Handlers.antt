-- ===== src/Hub/Concurrent/Handlers.antt =====
-- Every handler of the hub as a routine.
use Prim.Native.String.{◌++◌}
use kopilot.Base.{
  ℕ, zero, suc, String, List, [], ◌∷◌, Bool, true, false, Option, none, some, if◌then◌else◌, ◌==◌,
  nat_eq, length, trim_prefix, Error, errorf, Result, ok, err,
}
use kopilot.Api.{NamespacedName}
use kopilot.Http.{
  Url, Request, Response, Writer, write, cannot_write, write_header, http_error, single_host,
  modify_nothing,
}
use kopilot.Hub.{Env}
use kopilot.Hub.Config.{Config}
use kopilot.Hub.Subresources.{next_peer, connect_url}
use kopilot.Hub.Peer.{proxy_prefix, list_peers, cert_path}
use kopilot.Hub.Concurrent.{Routine, answers, panics, starves, adds, dials, ◌>>=◌, ask}
use kopilot.Hub.Concurrent.Serving.{Service, RoutineProxy, serve, looks_up, checks_token}

module _ (e : Env) (c : Config) where
  open e use {
    World, url_parse, template_parse, template_execute, Certificate, load_key_pair, WsConn, Session,
    Conn, upgrade, yamux_server, round_trip, peer_round_trip, agent_yaml_template, route_vars,
    clean_path,
  }

  -- `template.Must`, and `Execute` with the panic that follows its error.
  unfoldable pub needs : {A : Type 0} → Result A → (A → Routine e Writer) → Routine e Writer
  needs (ok a) f = f a
  needs (err er) f = panics

  unfoldable pub agent_rest : NamespacedName → String → Service e
  unfolding needs
  agent_rest key token w r = needs (template_parse agent_yaml_template) (λ tmpl.
      needs
        (template_execute tmpl
          (("imageName", c.agent_image) ∷ ("connectURL", connect_url e c key token) ∷ []))
        (λ text. if cannot_write text w then panics else answers (write text w)))

  unfoldable pub agent_routine : NamespacedName → Service e
  agent_routine key = looks_up e key (checks_token e (agent_rest key))

  -- What follows the call of `yamux.Server`, and what follows the upgrade.
  unfoldable pub registers : NamespacedName → Writer → Result Session → Routine e Writer
  registers key w (err er) = answers (http_error ("failed to multiplex channel: " ++ er.text) 500 w)
  registers key w (ok sess) = adds key sess (answers w)

  unfoldable pub multiplexes : NamespacedName → Result WsConn × Writer → Routine e Writer
  unfolding registers
  multiplexes key (err er, w) =
      answers (http_error ("failed to upgrade to WebSocket: " ++ er.text) 500 w)
  multiplexes key (ok conn, w) = ask (yamux_server conn) >>= registers key w

  unfoldable pub connect_rest : NamespacedName → String → Service e
  unfolding multiplexes
  connect_rest key token w r = ask (upgrade w r) >>= multiplexes key

  unfoldable pub connect_routine : NamespacedName → Service e
  connect_routine key = looks_up e key (checks_token e (connect_rest key))

  -- The request over what `Dial` gave, and both.
  unfoldable pub over : Request → Result Conn → Routine e (Result Response)
  over out (err er) = answers (err er)
  over out (ok conn) = ask (round_trip conn out)

  unfoldable pub transport_routine : NamespacedName → Request → Routine e (Result Response)
  unfolding over
  transport_routine key out = dials key (over out)

  -- The reverse proxy of one call of `TryNextPeer`.
  unfoldable pub peer_errors :
      (Writer → Request → Error → Routine e Writer)
      → NamespacedName
      → Writer
      → Request
      → Error
      → Routine e Writer
  peer_errors retry key w r er =
      if er.text == ""
      then retry w (record r { path = trim_prefix r.path (proxy_prefix key.namespace key.name) }) er
      else answers (write_header 502 w)

  unfoldable pub peer_forward :
      (Writer → Request → Error → Routine e Writer)
      → NamespacedName
      → Url
      → Certificate
      → RoutineProxy e
  unfolding peer_errors
  peer_forward retry key target cert = record {
    director = single_host target;
    transport = λ out. ask (peer_round_trip cert out);
    modify_response = λ resp. if nat_eq resp.status 502 then some (errorf "") else none;
    error_handler = peer_errors retry key;
  }

  -- What follows the load of the key pair, and the whole of one call.
  unfoldable pub sends_on :
      (Writer → Request → Error → Routine e Writer)
      → NamespacedName
      → Url
      → Writer
      → Request
      → Result Certificate
      → Routine e Writer
  unfolding peer_forward
  sends_on retry key target w r (err er) =
      answers (http_error ("failed to load cert: " ++ er.text) 500 w)
  sends_on retry key target w r (ok cert) = serve e (peer_forward retry key target cert) w r

  unfoldable pub targets :
      (Writer → Request → Error → Routine e Writer)
      → NamespacedName
      → Writer
      → Request
      → Result Url
      → Routine e Writer
  unfolding sends_on
  targets retry key w r (err er) = answers (http_error ("failed to parse URL: " ++ er.text) 500 w)
  targets retry key w r (ok target) =
      ask (λ v. (load_key_pair (cert_path e c "tls.crt") (cert_path e c "tls.key") v, v))
      >>= sends_on retry key target w r

  unfoldable pub try_routine :
      (Writer → Request → Error → Routine e Writer)
      → String
      → NamespacedName
      → Writer
      → Request
      → Routine e Writer
  unfolding targets
  try_routine retry peer key w r =
      if peer == ""
      then answers (write_header 502 w)
      else targets retry key w r
          (url_parse ("https://" ++ (peer ++ proxy_prefix key.namespace key.name)))

  unfoldable pub try_next_routine :
      ℕ → (ℕ → String × ℕ) → ℕ → NamespacedName → Writer → Request → Error → Routine e Writer
  unfolding try_routine
  try_next_routine zero next calls key w r er = starves
  try_next_routine (suc fuel) next calls key w r er =
      try_routine (try_next_routine fuel next (next calls).1 key) (next calls).0 key w r

  -- `rp.ErrorHandler`: what follows `ListPeers`, and the whole, with and without a peer manager.
  unfoldable pub searches :
      NamespacedName → Writer → Request → Error → Result (List String) → Routine e Writer
  unfolding try_next_routine
  searches key w r er (err er') = answers (http_error ("failed to list peers: " ++ er'.text) 500 w)
  searches key w r er (ok peers) =
      try_next_routine (suc (length peers)) (next_peer peers) 0 key w r er

  unfoldable pub errors_routine :
      Bool → NamespacedName → Writer → Request → Error → Routine e Writer
  unfolding searches
  errors_routine true key w r er = ask (list_peers e c) >>= searches key w r er
  errors_routine false key w r er = answers (write_header 502 w)

  unfoldable pub local_forward : Bool → NamespacedName → String → Url → RoutineProxy e
  unfolding errors_routine transport_routine
  local_forward has_peers key sub target = record {
    director = λ r. record (single_host target r) { path = sub };
    transport = transport_routine key;
    modify_response = modify_nothing;
    error_handler = errors_routine has_peers key;
  }

  unfoldable pub forwards : Bool → NamespacedName → String → Result Url → Service e
  unfolding local_forward
  forwards has_peers key sub (err er) w r = panics
  forwards has_peers key sub (ok target) w r = serve e (local_forward has_peers key sub target) w r

  unfoldable pub proxy_routine : Bool → NamespacedName → String → Service e
  unfolding forwards
  proxy_routine has_peers key sub =
      looks_up e key (λ cluster. forwards has_peers key sub (url_parse "http://127.0.0.1"))

  -- The route of the server for peers, whose proxy has no peer manager.
  unfoldable pub routes : Option (String × String) → Service e
  unfolding proxy_routine
  routes none w r = answers (http_error "404 page not found" 404 w)
  routes (some (namespace, name)) w r =
      proxy_routine false (record { namespace = namespace; name = name })
        (trim_prefix r.path (proxy_prefix namespace name)) w r

  unfoldable pub peer_routine : Service e
  unfolding routes
  peer_routine w r =
      if clean_path r.path == r.path
      then routes (route_vars r.path) w r
      else answers (write_header 301 w)
