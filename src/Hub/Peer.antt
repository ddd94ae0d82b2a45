-- ===== src/Hub/Peer.antt =====
-- pkg/hub/peer/server.go: the peers of a hub, the search among them, and the route that they serve.
pub mod Rounds
pub mod Listing
pub mod Search
pub mod Routing
use Prim.Native.String.{◌++◌}
use kopilot.Base.{
  ℕ, zero, suc, String, List, [], ◌∷◌, Bool, true, false, Option, none, some, if◌then◌else◌, ◌==◌,
  nat_eq, trim_prefix, Error, errorf, Result, ok, err, Outcome, done, starved,
}
use kopilot.Api.{NamespacedName}
use kopilot.Http.{
  Url, Request, Response, Writer, ReverseProxy, write_header, http_error, single_host, serve_http,
}
use kopilot.Hub.{Env, State, Handler, EndpointPort, EndpointSubset}
use kopilot.Hub.Config.{Config}
use kopilot.Hub.Subresources.{PeerManager, proxy_handler}

-- `"/proxy/%s/%s"`.
abbrev pub proxy_prefix : String → String → String
proxy_prefix namespace name = "/proxy/" ++ (namespace ++ ("/" ++ name))

-- The loop over `subset.Ports`: the first port of the name "peer", or the one given.
unfoldable pub peer_port : ℕ → List EndpointPort → ℕ
peer_port port [] = port
peer_port port (p ∷ ps) = if p.name == "peer" then p.port else peer_port port ps

module _ (e : Env) (c : Config) where
  open e use {
    World, quote, decimal, url_parse, Certificate, load_key_pair, peer_round_trip, get_endpoints,
    route_vars, clean_path, join_path,
  }

  -- `fmt.Sprintf("%s:%d", addr.IP, port)`.
  abbrev pub peer_address : ℕ → String → String
  peer_address port ip = ip ++ (":" ++ decimal port)

  -- The loop over `subset.Addresses`, which leaves out the hub itself.
  unfoldable pub peer_addresses : ℕ → List String → List String
  peer_addresses port [] = []
  peer_addresses port (ip ∷ ips) =
      let rest = peer_addresses port ips in if ip == c.ip then rest else peer_address port ip ∷ rest

  abbrev pub service : String
  service = c.service_namespace ++ ("/" ++ c.service_name)

  -- The part of `ListPeers` behind the request: of the subsets only the first is read.
  unfoldable pub peers_of : List EndpointSubset → Result (List String)
  unfolding peer_port peer_addresses
  peers_of [] = err (errorf ("no subset found for service " ++ quote service))
  peers_of (subset ∷ more) = elim subset.ports [
    | [] ↦ err (errorf ("no port found for service " ++ quote service))
    | p ∷ ps ↦ ok (peer_addresses (peer_port p.port (p ∷ ps)) subset.addresses)
  ]

  -- `(*Manager).ListPeers`.
  unfoldable pub list_peers : World → Result (List String) × World
  list_peers v =
      let (got, v') = get_endpoints c.service_namespace c.service_name v in
      elim got [
        | err er ↦ (err (errorf ("get endpoints: " ++ er.text)), v')
        | ok subsets ↦ (peers_of subsets, v')
      ]

  -- The reverse proxy of `TryNextPeer`; `retry` is its recursive call.
  unfoldable pub peer_proxy :
      (Writer → Request → Error → State e → Outcome (Writer × State e))
      → NamespacedName
      → Url
      → Certificate
      → ReverseProxy (State e)
  peer_proxy retry key target cert = record {
    director = single_host target;
    transport = λ out (m, v). let (res, v') = peer_round_trip cert out v in done (res, (m, v'));
    modify_response = λ resp. if nat_eq resp.status 502 then some (errorf "") else none;
    error_handler = λ w r er s.
        if er.text == ""
        then retry w (record r { path = trim_prefix r.path (proxy_prefix key.namespace key.name) })
            er s
        else done (write_header 502 w, s);
  }

  abbrev pub cert_path : String → String
  cert_path file = join_path c.peer_cert_dir file

  -- One call of `TryNextPeer`, given the peer that `nextPeer` named.
  unfoldable pub try_peer :
      (Writer → Request → Error → State e → Outcome (Writer × State e))
      → String
      → NamespacedName
      → Writer
      → Request
      → State e
      → Outcome (Writer × State e)
  unfolding peer_proxy
  try_peer retry peer key w r (m, v) =
      if peer == ""
      then done (write_header 502 w, (m, v))
      else elim (url_parse ("https://" ++ (peer ++ proxy_prefix key.namespace key.name))) [
        | err er ↦ done (http_error ("failed to parse URL: " ++ er.text) 500 w, (m, v))
        | ok target ↦ elim (load_key_pair (cert_path "tls.crt") (cert_path "tls.key") v) [
          | err er ↦ done (http_error ("failed to load cert: " ++ er.text) 500 w, (m, v))
          | ok cert ↦ serve_http (peer_proxy retry key target cert) w r (m, v)
        ]
      ]

  -- `(*Manager).TryNextPeer`; `calls` counts the calls of `nextPeer`, and fuel bounds them.
  unfoldable pub try_next_peer :
      ℕ
      → (ℕ → String × ℕ)
      → ℕ
      → NamespacedName
      → Writer
      → Request
      → Error
      → State e
      → Outcome (Writer × State e)
  try_next_peer zero next calls key w r er s = starved
  try_next_peer (suc fuel) next calls key w r er s =
      let (peer, calls') = next calls in
      try_peer (try_next_peer fuel next calls' key) peer key w r s

  -- `NewManager`, as the interface that the proxy takes.
  abbrev pub manager : PeerManager e
  manager = record { list_peers = list_peers; try_next_peer = try_next_peer }

  -- The router of `StartServer`, whose path is cleaned by default, and the handler of its route
  -- "/proxy/{namespace}/{name}".
  unfoldable pub peer_handler : Handler e
  peer_handler w r s =
      if clean_path r.path == r.path
      then elim (route_vars r.path) [
        | none ↦ done (http_error "404 page not found" 404 w, s)
        | some (namespace, name) ↦
            let key : NamespacedName = record { namespace = namespace; name = name } in
            let subpath = trim_prefix r.path (proxy_prefix namespace name) in
            proxy_handler e c none key subpath w r s
      ]
      else done (write_header 301 w, s)
