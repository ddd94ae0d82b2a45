-- ===== src/Hub/Proxying.antt =====
-- Whole runs of the proxy handler: how they end, and what they do to the registry.
use kopilot.Base.{
  Result-cases, subst, sym, suc, ◌≡◌, refl, String, List, Option, none, some, inl, inr, ◌⊎◌, Error,
  Result, ok, err, done, length, arith,
}
use kopilot.Api.{NamespacedName}
use kopilot.Session.{SessionManager, Dialled, dial_cluster, IntnInRange}
use kopilot.Session.Dialling.{dial_cluster-Contract, trivial_closing}
use kopilot.Http.{forwarded, Url, Request, Response, Writer, serve_http, single_host}
use kopilot.Hub.{Env}
use kopilot.Hub.Config.{Config}
use kopilot.Hub.Subresources.{
  PeerManager, next_peer, with_cluster, local_transport, local_proxy, peers_error_handler,
  proxy_body, proxy_handler,
}
use kopilot.Hub.Peer.{manager}
use kopilot.Hub.Peer.Rounds.{Ends, try_next_peer-Ends}

module _ (e : Env) (c : Config) (key : NamespacedName) where
  open e use {World, url_parse, get_cluster, round_trip}

  -- The search among the peers ends and leaves the registry.
  abbrev IsQuiet : Option (PeerManager e) → Type 0
  IsQuiet none = Unit
  IsQuiet (some p) =
      (peers : List String) (w : Writer) (r : Request) (er : Error) (m : SessionManager e.net)
      (v : World)
      → Ends e c key (λ s. s.0 ≡ m)
          (p.try_next_peer (suc (length peers)) (next_peer peers) 0 key w r er (m, v))

  -- `NewProxyHandler` is called with the manager by the hub, and with nil by the server for peers.
  abbrev pub IsUsed : Option (PeerManager e) → Type 0
  IsUsed pm = (pm ≡ none) ⊎ (pm ≡ some (manager e c))

  manager-IsQuiet : IsQuiet (some (manager e c))
  manager-IsQuiet peers w r er m v =
      try_next_peer-Ends e c key peers (suc (length peers)) 0 w r er m v (omega arith) (omega arith)

  local_transport-after :
      (out : Request) (m m' : SessionManager e.net) (v v' : World) (answer : Result e.Conn)
      → dial_cluster e.net key m v ≡ done (answer, m', v')
      → (res : Result Response) × (v'' : World) × (local_transport e c key out (m, v)
          ≡ done (res, (m', v'')))
  unfolding local_transport
  local_transport-after out m m' v v' (err er) eq = (err er, v', rw eq)
  local_transport-after out m m' v v' (ok conn) eq =
      ((round_trip conn out v').0, (round_trip conn out v').1, rw eq)

  error_handler-Ends :
      (pm : Option (PeerManager e)) (quiet : IsQuiet pm) (sub : String) (target : Url) (w : Writer)
      (r : Request) (er : Error) (m : SessionManager e.net) (v : World)
      → Ends e c key
          (λ s. s.0 ≡ m)
          ((local_proxy e c pm key sub target).error_handler w r er (m, v))
  unfolding local_proxy peers_error_handler
  error_handler-Ends none quiet sub target w r er m v = (_, (m, v), refl, refl)
  error_handler-Ends (some p) quiet sub target w r er m v = elim (Result-cases (p.list_peers v).0) [
    | inr (er', q) ↦ rw (q, peers_error_handler) (_, (m, _), refl, refl)
    | inl (peers, q) ↦ rw (q, peers_error_handler) (quiet peers w r er m (p.list_peers v).1)
  ]

  module _ (pm : Option (PeerManager e)) (quiet : IsQuiet pm) (sub : String) (target : Url) where
    serve_http-after :
        (w : Writer) (r : Request) (m m' : SessionManager e.net) (v v' : World)
        (res : Result Response)
        → local_transport e c key (forwarded (record (single_host target r) { path = sub })) (m, v)
          ≡ done (res, (m', v'))
        → Ends e c key (λ s. s.0 ≡ m') (serve_http (local_proxy e c pm key sub target) w r (m, v))
    unfolding serve_http local_proxy
    serve_http-after w r m m' v v' (ok resp) eq = rw (eq, serve_http) (_, (m', v'), refl, refl)
    serve_http-after w r m m' v v' (err er) eq =
        rw (eq, serve_http) (error_handler-Ends pm quiet sub target w _ er m' v')

  -- The registry afterwards: as it was, or as one dial for the handler's cluster left it.
  abbrev pub DialsOnce : SessionManager e.net → SessionManager e.net → Type 0
  DialsOnce m m' =
      (m' ≡ m)
      ⊎ ((v : World) × (d : Dialled e.net) × (dial_cluster e.net key m v ≡ done d) × (m' ≡ d.1))

  Quiet-manager : (pm : Option (PeerManager e)) → IsUsed pm → IsQuiet pm
  Quiet-manager pm (inl e₀) = subst IsQuiet (sym e₀) tt
  Quiet-manager pm (inr e₁) = subst IsQuiet (sym e₁) manager-IsQuiet

  -- The proxy handler ends: where `rand.Intn` keeps to its range and the local target's URL
  -- parses, each run of it answers, or breaks its answer off with `http.ErrAbortHandler` because a
  -- body cannot be copied, as the writer notes; it neither panics otherwise nor goes on for ever,
  -- whichever sessions and peers fail. It leaves the registry as it was, or as one dial for its own
  -- cluster left it.
  pub proxy_handler-DialsOnce :
      (in_range : IntnInRange e.net) (target : Url)
      (parses : url_parse "http://127.0.0.1" ≡ ok target) (pm : Option (PeerManager e))
      (used : IsUsed pm) (sub : String) (w : Writer) (r : Request) (m : SessionManager e.net)
      (v : World)
      → Ends e c key (λ s. DialsOnce m s.0) (proxy_handler e c pm key sub w r (m, v))
  unfolding proxy_handler proxy_body with_cluster
  proxy_handler-DialsOnce in_range target parses pm used sub w r m v =
      elim (Result-cases (get_cluster key.namespace key.name v).0) [
        | inr (er, q) ↦ rw (q, with_cluster) (_, (m, _), refl, inl refl)
        | inl (cluster, q) ↦
            let v₁ = (get_cluster key.namespace key.name v).1 in
            let (d, dialled, _) =
              dial_cluster-Contract e.net in_range (trivial_closing e.net) key m v₁ in
            let (res, v₂, eq₂) =
              local_transport-after (forwarded (record (single_host target r) { path = sub })) m d.1
                v₁ d.2 d.0 dialled in
            let (w', s, eq₃, same) =
              serve_http-after pm (Quiet-manager pm used) sub target w r m d.1 v₁ v₂ res eq₂ in
            rw (q, with_cluster, parses, proxy_body) (w', s, eq₃, inr (v₁, d, dialled, same))
      ]
