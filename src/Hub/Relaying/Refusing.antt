-- ===== src/Hub/Relaying/Refusing.antt =====
-- Peers that have no session: what they answer, and how a search goes on behind them.
use Prim.Native.String.{◌++◌}
use kopilot.Base.{◌≡◌, ap, String, List, ◌∷◌, none, Error, ok, err, Outcome, done, arith, ◌>>=◌}
use kopilot.Api.{Cluster, NamespacedName}
use kopilot.Session.{SessionManager, dial_cluster}
use kopilot.Http.{
  forwarded, Url, Request, Response, Writer, serve_http, copy_response, write_header,
}
use kopilot.Hub.{Env, State}
use kopilot.Hub.Config.{Config}
use kopilot.Hub.Subresources.{with_cluster, local_proxy, proxy_body, proxy_handler}
use kopilot.Hub.Peer.Search.{first_answer}
use kopilot.Hub.Relaying.{local_transport-failed}
use kopilot.Hub.Relaying.Sending.{outgoing}

-- The proxy with no peers to go on to, of a hub none of whose sessions grants a stream.
serve_http-refused :
    (e : Env) (c : Config) (key : NamespacedName) (rest : String) (target : Url) (w : Writer)
    (r : Request) (m m' : SessionManager e.net) (v v' : e.World) (er : Error)
    → dial_cluster e.net key m v ≡ done (err er, m', v')
    → serve_http (local_proxy e c none key ("/" ++ rest) target) w r (m, v)
      ≡ done (write_header 502 w, (m', v'))
unfolding serve_http local_proxy
serve_http-refused e c key rest target w r m m' v v' er dialled =
    ap
      (λ x. x >>= λ y. elim y.0 as (λ z. Outcome (Writer × State e)) [
        | err er' ↦ done (write_header 502 w, y.1)
        | ok resp ↦ done (copy_response resp w, y.1)
      ])
      (local_transport-failed e c key rest (outgoing target ("/" ++ rest) r) m m' v v' er dialled)

pub proxy_handler-refused :
    (e : Env) (c : Config) (key : NamespacedName) (rest : String) (target : Url) (w : Writer)
    (r : Request) (m m' : SessionManager e.net) (v v' : e.World) (er : Error)
    (cluster : Cluster e.kube)
    → e.url_parse "http://127.0.0.1" ≡ ok target
    → (e.get_cluster key.namespace key.name v).0 ≡ ok cluster
    → dial_cluster e.net key m (e.get_cluster key.namespace key.name v).1 ≡ done (err er, m', v')
    → proxy_handler e c none key ("/" ++ rest) w r (m, v) ≡ done (write_header 502 w, (m', v'))
unfolding proxy_handler proxy_body with_cluster
proxy_handler-refused e c key rest target w r m m' v v' er cluster parses found dialled =
    rw (found, with_cluster)
      (rw (parses, proxy_body) (serve_http-refused e c key rest target w r m m' _ v' er dialled))

pub first_answer-next :
    (e : Env) (cert : e.Certificate) (ask : String → Request) (peer : String) (more : List String)
    (w : Writer) (m : SessionManager e.net) (v v' : e.World) (resp : Response)
    → e.peer_round_trip cert (forwarded (ask peer)) v ≡ (ok resp, v')
    → resp.status ≡ 502
    → first_answer e cert ask (peer ∷ more) w (m, v)
      ≡ first_answer e cert (λ q. forwarded (ask q)) more w (m, v')
unfolding first_answer
first_answer-next e cert ask peer more w m v v' resp answers refused = ground arith
