-- ===== src/Hub/Relaying.antt =====
-- A hub that has no session of a cluster sends a client's request on to its peers.
pub mod Sending
pub mod Losing
pub mod Refusing
pub mod Meshing
use Prim.Native.String.{◌++◌}
use kopilot.Base.{
  suc, ◌≡◌, ◌≢◌, refl, sym, ap, ◌∙◌, String, List, [], ◌∷◌, none, some, lookup, Table, Error, ok,
  err, Outcome, done, All, length, SlashFree, arith, lookup-insert, eq_iff, Option-cases,
  Result-cases, ◌>>=◌, inl, inr,
}
use kopilot.Api.{Cluster, NamespacedName}
use kopilot.Session.{SessionManager, dial_cluster}
use kopilot.Http.{
  forwarded, Body, no_body, spent, unread, close_body, Url, Request, Response, Writer, ReverseProxy,
  fresh, with_user_agent, single_host, serve_http, copy_response,
}
use kopilot.Hub.{Env, State}
use kopilot.Hub.Config.{Config}
use kopilot.Hub.Subresources.{
  with_cluster, local_transport, local_proxy, peers_error_handler, proxy_body, proxy_handler,
}
use kopilot.Hub.Peer.{list_peers, cert_path, manager, peer_handler}
use kopilot.Hub.Peer.Search.{peer_request, first_answer, Parses, try_next_peer-first_answer}
use kopilot.Hub.Peer.Routing.{RoutesSegments, peer_handler-peer_request}
use Sending.{handed_on-agent, outgoing, handed_on, close_body-close_body}

module _ (e : Env) (c : Config) (key : NamespacedName) (rest : String) where
  open e use {World, get_cluster, url_parse, load_key_pair, Certificate}

  -- A dial that fails hands the request to the search among the peers.
  pub local_transport-failed :
      (out : Request) (m m' : SessionManager e.net) (v v' : World) (er : Error)
      → dial_cluster e.net key m v ≡ done (err er, m', v')
      → local_transport e c key out (m, v) ≡ done (err er, (m', v'))
  unfolding local_transport
  local_transport-failed out m m' v v' er eq = rw eq refl

  -- What a client of a hub gets that has to ask its peers.
  module _ (cert : Certificate)
      (loads : (v : World)
        → load_key_pair (cert_path e c "tls.crt") (cert_path e c "tls.key") v ≡ ok cert)
      (free : SlashFree key.name) (named : key.name ≢ "") (target : Url)
      (parses : url_parse "http://127.0.0.1" ≡ ok target) (peers : List String)
      (good : All (λ p. (p ≢ "") × Parses e key p) peers) (w : Writer) (r : Request) where
    peers_error_handler-first_answer :
        (m : SessionManager e.net) (v : World) (er : Error)
        → (list_peers e c v).0 ≡ ok peers
        → peers_error_handler e c (manager e c) key w (handed_on target ("/" ++ rest) r) er (m, v)
          ≡ done (
              first_answer e cert
                (peer_request key ("/" ++ rest) (handed_on target ("/" ++ rest) r))
                peers
                w
                (m, (list_peers e c v).1))
    unfolding peers_error_handler single_host
    peers_error_handler-first_answer m v er listed =
        let (agent, has) = handed_on-agent target ("/" ++ rest) r in
        rw (listed, peers_error_handler)
          (try_next_peer-first_answer e c cert loads key named free rest agent peers
            (suc (length peers)) w (handed_on target ("/" ++ rest) r) er (m, (list_peers e c v).1)
            good refl has (close_body-close_body r.body) (omega arith))

    serve_http-first_answer :
        (m m' : SessionManager e.net) (v v' : World) (er : Error)
        → dial_cluster e.net key m v ≡ done (err er, m', v')
        → (list_peers e c v').0 ≡ ok peers
        → serve_http (local_proxy e c (some (manager e c)) key ("/" ++ rest) target) w r (m, v)
          ≡ done (
              first_answer e cert
                (peer_request key ("/" ++ rest) (handed_on target ("/" ++ rest) r))
                peers
                w
                (m', (list_peers e c v').1))
    unfolding serve_http local_proxy single_host
    serve_http-first_answer m m' v v' er dialled listed =
        ap
          (λ x. x >>= λ y. elim y.0 as (λ z. Outcome (Writer × State e)) [
            | err er' ↦
                peers_error_handler e c (manager e c) key w (handed_on target ("/" ++ rest) r) er'
                  y.1
            | ok resp ↦ done (copy_response resp w, y.1)
          ])
          (local_transport-failed (outgoing target ("/" ++ rest) r) m m' v v' er dialled)
        ∙ peers_error_handler-first_answer m' v' er listed

    -- The hub has no session left that grants a stream: the client gets the first answer among the
    -- peers, asked for the same cluster and subpath; the registry is as the dial left it.
    pub proxy_handler-first_answer :
        (m m' : SessionManager e.net) (v v' : World) (cluster : Cluster e.kube) (er : Error)
        → (get_cluster key.namespace key.name v).0 ≡ ok cluster
        → dial_cluster e.net key m (get_cluster key.namespace key.name v).1 ≡ done (err er, m', v')
        → (list_peers e c v').0 ≡ ok peers
        → proxy_handler e c (some (manager e c)) key ("/" ++ rest) w r (m, v)
          ≡ done (
              first_answer e cert
                (peer_request key ("/" ++ rest) (handed_on target ("/" ++ rest) r))
                peers
                w
                (m', (list_peers e c v').1))
    unfolding proxy_handler proxy_body with_cluster
    proxy_handler-first_answer m m' v v' cluster er found dialled listed =
        rw (found, with_cluster)
          (rw (parses, proxy_body)
            (serve_http-first_answer m m' (get_cluster key.namespace key.name v).1 v' er dialled
              listed))

-- A handler's response as its client gets it. net/http sends the status 200 where there is none, and
-- breaks the connection off where the handler aborts.
joined : List String → String
joined [] = ""
joined (piece ∷ pieces) = piece ++ joined pieces

unfoldable pub received : Writer → Response
unfolding joined
received w = record {
  status = elim w.status [ none ↦ 200 | some code ↦ code ];
  body = joined w.body;
  broken = w.aborted;
}

pub first_answer-first :
    (e : Env) (cert : e.Certificate) (ask : String → Request) (peer : String) (more : List String)
    (w : Writer) (m : SessionManager e.net) (v v' : e.World) (resp : Response)
    → e.peer_round_trip cert (forwarded (ask peer)) v ≡ (ok resp, v')
    → resp.status ≢ 502
    → first_answer e cert ask (peer ∷ more) w (m, v) ≡ (copy_response resp w, (m, v'))
unfolding first_answer
first_answer-first e cert ask peer more w m v v' resp answers other = ground arith
