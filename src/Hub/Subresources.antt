-- ===== src/Hub/Subresources.antt =====
-- pkg/hub/cluster/subresources.go: the subresources "agent", "connect" and "proxy" of a cluster.
pub mod Access
use Prim.Native.String.{◌++◌}
use kopilot.Base.{
  ℕ, suc, String, List, [], ◌∷◌, Bool, true, false, Option, none, some, Table, if◌then◌else◌, ◌==◌,
  length, get_elem?, Error, Result, ok, err, Outcome, done, panicked, ◌>>=◌,
}
use kopilot.Api.{Cluster, NamespacedName}
use kopilot.Session.{SessionManager, add_cluster_session, dial_cluster}
use kopilot.Http.{
  Url, Request, Response, Writer, ReverseProxy, write, cannot_write, http_error, query_get,
  single_host, serve_http, default_error_handler, modify_nothing,
}
use kopilot.Hub.{Env, State, Handler, is_not_found}
use kopilot.Hub.Config.{Config}

-- `PeerManager`. `TryNextPeer` takes the closure `nextPeer` with the variable that it captures, as
-- the number of calls made, and fuel for the calls that are left.
pub record PeerManager (e : Env) : Type 0 where
  pub list_peers : e.World → Result (List String) × e.World
  pub try_next_peer :
      ℕ
      → (ℕ → String × ℕ)
      → ℕ
      → NamespacedName
      → Writer
      → Request
      → Error
      → State e
      → Outcome (Writer × State e)

-- `nextPeer`, where `calls` is `idx + 1`.
unfoldable pub next_peer : List String → ℕ → String × ℕ
next_peer peers calls = elim (get_elem? peers calls) [
  | none ↦ ("", suc calls)
  | some p ↦ (p, suc calls)
]

module _ (e : Env) where
  open e use {World, url_parse, get_cluster}

  -- The lookup with which all three handlers begin.
  unfoldable pub with_cluster : NamespacedName → (Cluster e.kube → Handler e) → Handler e
  with_cluster key body w r (m, v) =
      let (got, v') = get_cluster key.namespace key.name v in
      elim got [
        | err er ↦ done (
          (if is_not_found er
              then http_error "Not Found" 404 w
              else http_error ("failed to get cluster: " ++ er.text) 500 w),
          (m, v'),
        )
        | ok cluster ↦ body cluster w r (m, v')
      ]

  -- `token != cluster.Token`.
  unfoldable pub with_token : (String → Handler e) → Cluster e.kube → Handler e
  with_token body cluster w r s =
      let token = query_get r "token" in
      if token == cluster.token then body token w r s else done (http_error "Unauthorized" 401 w, s)

module _ (e : Env) (c : Config) where
  open e use {
    World, kube, url_parse, get_cluster, subresource_path, template_parse, template_execute,
    upgrade, yamux_server, round_trip, agent_yaml_template,
  }

  -- The URL that the manifest hands to the agent.
  abbrev pub connect_url : NamespacedName → String → String
  connect_url key token =
      "wss://" ++ (c.public_addr ++ (subresource_path "connect" key ++ ("?token=" ++ token)))

  -- `template.Must` panics on a template that does not parse.
  unfoldable pub must {ℓ} : {A : Type ℓ} → Result A → Outcome A
  must (ok a) = done a
  must (err er) = panicked

  -- The handler of `NewAgentSubresource` behind the checks, and the whole. `Execute` returns an error,
  -- on which the handler panics, also where it cannot write to the client.
  unfoldable pub agent_body : NamespacedName → String → Handler e
  unfolding must
  agent_body key token w r s = do
    tmpl ← must (template_parse agent_yaml_template)
    let filled = ("imageName", c.agent_image) ∷ ("connectURL", connect_url key token) ∷ []
    text ← must (template_execute tmpl filled)
    if cannot_write text w then panicked else done (write text w, s)

  unfoldable pub agent_handler : NamespacedName → Handler e
  agent_handler key = with_cluster e key (with_token e (agent_body key))

  -- The handler of `NewConnectSubresource` behind the checks, and the whole. A failed upgrade has
  -- answered by itself, on the writer that it leaves.
  unfoldable pub connect_body : NamespacedName → String → Handler e
  connect_body key token w r (m, v) =
      let ((upgraded, w₁), v₁) = upgrade w r v in
      elim upgraded [
        | err er ↦ done (http_error ("failed to upgrade to WebSocket: " ++ er.text) 500 w₁, (m, v₁))
        | ok conn ↦
            let (served, v₂) = yamux_server conn v₁ in
            elim served [
              | err er ↦
                  done (http_error ("failed to multiplex channel: " ++ er.text) 500 w₁, (m, v₂))
              | ok sess ↦ done (w₁, (add_cluster_session e.net key sess m, v₂))
            ]
      ]

  unfoldable pub connect_handler : NamespacedName → Handler e
  connect_handler key = with_cluster e key (with_token e (connect_body key))

  -- `Dial` of the proxy's transport, and the request over what it gives.
  unfoldable pub local_transport :
      NamespacedName → Request → State e → Outcome (Result Response × State e)
  local_transport key out (m, v) = do
    (dialled, m', v') ← dial_cluster e.net key m v
    elim dialled [
      | err er ↦ done (err er, (m', v'))
      | ok conn ↦ let (res, v'') = round_trip conn out v' in done (res, (m', v''))
    ]

  -- `rp.ErrorHandler`, where there is a peer manager.
  unfoldable pub peers_error_handler :
      PeerManager e
      → NamespacedName
      → Writer
      → Request
      → Error
      → State e
      → Outcome (Writer × State e)
  peers_error_handler peer_manager key w r er (m, v) =
      let (listed, v') = peer_manager.list_peers v in
      elim listed [
        | err er' ↦ done (http_error ("failed to list peers: " ++ er'.text) 500 w, (m, v'))
        | ok peers ↦
            peer_manager.try_next_peer (suc (length peers)) (next_peer peers) 0 key w r er (m, v')
      ]

  -- The reverse proxy of `NewProxyHandler`.
  unfoldable pub local_proxy :
      Option (PeerManager e) → NamespacedName → String → Url → ReverseProxy (State e)
  local_proxy peer_manager key subpath target = record {
    director = λ r. record (single_host target r) { path = subpath };
    transport = local_transport key;
    modify_response = modify_nothing;
    error_handler = elim peer_manager [
      | none ↦ default_error_handler
      | some p ↦ peers_error_handler p key
    ];
  }

  -- `NewProxyHandler`: a target that does not parse is a panic.
  unfoldable pub proxy_body :
      Option (PeerManager e) → NamespacedName → String → Cluster e.kube → Handler e
  unfolding local_proxy
  proxy_body peer_manager key subpath cluster w r s = elim (url_parse "http://127.0.0.1") [
    | err er ↦ panicked
    | ok target ↦ serve_http (local_proxy peer_manager key subpath target) w r s
  ]

  unfoldable pub proxy_handler : Option (PeerManager e) → NamespacedName → String → Handler e
  proxy_handler peer_manager key subpath = with_cluster e key (proxy_body peer_manager key subpath)
