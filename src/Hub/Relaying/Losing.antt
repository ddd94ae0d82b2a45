-- ===== src/Hub/Relaying/Losing.antt =====
-- A request with a body that meets a hub without a session.
use Prim.Native.String.{◌++◌}
use kopilot.Base.{
  ◌≡◌, ◌≢◌, ap, ◌∙◌, String, List, ◌∷◌, some, Error, ok, err, done, All, SlashFree, text_eq-false,
  arith,
}
use kopilot.Api.{Cluster, NamespacedName}
use kopilot.Session.{SessionManager, dial_cluster}
use kopilot.Http.{
  forwarded, Url, Request, Writer, spent, unread, close_body, single_host, write_header,
}
use kopilot.Hub.{Env}
use kopilot.Hub.Config.{Config}
use kopilot.Hub.Subresources.{proxy_handler}
use kopilot.Hub.Peer.{list_peers, cert_path, manager}
use kopilot.Hub.Peer.Search.{peer_request, first_answer, Parses}
use kopilot.Hub.Relaying.{proxy_handler-first_answer}
use kopilot.Hub.Relaying.Sending.{handed_on}

module _ (e : Env) (cert : e.Certificate) where
  open e use {World, peer_round_trip}

  -- Documented of net/http: a body that is closed cannot be read, so a request that has one fails,
  -- with an error that says so.
  abbrev pub RefusesSpent : Type 0
  RefusesSpent =
      (out : Request) (v : World)
      → out.body ≡ spent
      → (er : Error) × (v' : World) × (peer_round_trip cert out v ≡ (err er, v')) × (er.text ≢ "")

  first_answer-refused :
      (ask : String → Request) (peer : String) (more : List String) (w : Writer)
      (m : SessionManager e.net) (v v' : World) (er : Error)
      → peer_round_trip cert (forwarded (ask peer)) v ≡ (err er, v')
      → er.text ≢ ""
      → first_answer e cert ask (peer ∷ more) w (m, v) ≡ (write_header 502 w, (m, v'))
  unfolding first_answer
  first_answer-refused ask peer more w m v v' er refused loud =
      ground (arith, text_eq-false er.text "" loud)

  -- A hub none of whose sessions grants a stream answers a request that has a body with 502,
  -- whatever its peers could do: closing the body of the request, the proxy's own attempt has left
  -- nothing to send to the first of them, and the search ends there. Assumed: there is a peer, a
  -- transport fails with a text on a closed body, the hub finds the cluster, can list its peers and
  -- load its certificate, the URLs that it uses parse, no peer is an empty text, and the cluster's
  -- name is not empty and has no slash.
  pub proxy_handler-LosesBody :
      (c : Config)
      (loads : (v : World)
        → e.load_key_pair (cert_path e c "tls.crt") (cert_path e c "tls.key") v ≡ ok cert)
      (refuses : RefusesSpent) (key : NamespacedName) (rest text peer : String) (more : List String)
      (target : Url) (w : Writer) (r : Request) (m m' : SessionManager e.net) (v v' : World)
      (cluster : Cluster e.kube) (er : Error)
      → SlashFree key.name
      → key.name ≢ ""
      → All (λ p. (p ≢ "") × Parses e key p) (peer ∷ more)
      → r.body ≡ unread text
      → e.url_parse "http://127.0.0.1" ≡ ok target
      → (e.get_cluster key.namespace key.name v).0 ≡ ok cluster
      → dial_cluster e.net key m (e.get_cluster key.namespace key.name v).1 ≡ done (err er, m', v')
      → (list_peers e c v').0 ≡ ok (peer ∷ more)
      → (v'' : World) × (proxy_handler e c (some (manager e c)) key ("/" ++ rest) w r (m, v)
          ≡ done (write_header 502 w, (m', v'')))
  unfolding single_host
  proxy_handler-LosesBody c loads refuses key rest text peer more target w r m m' v v' cluster er
        free named good carries parses found dialled listed =
      let ask = peer_request key ("/" ++ rest) (handed_on target ("/" ++ rest) r) in
      let (er', v'', failed, loud) =
        refuses (forwarded (ask peer)) (list_peers e c v').1 (ap close_body carries) in
      (
        v'',
        proxy_handler-first_answer e c key rest cert loads free named target parses (peer ∷ more)
              good w r m m' v v' cluster er found dialled listed
            ∙ ap done
                (first_answer-refused ask peer more w m' (list_peers e c v').1 v'' er' failed loud),
      )
