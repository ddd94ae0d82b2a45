-- ===== src/Hub/Relaying/Meshing.antt =====
-- Any number of hubs: a request goes round the peers until it meets one that has a session.
use Prim.Native.String.{◌++◌}
use kopilot.Base.{
  lookup, Option, Table, ◌≡◌, ◌≢◌, refl, sym, ap, ◌∙◌, subst, String, List, [], ◌∷◌, none, some,
  Error, ok, err, Outcome, done, All, SlashFree, arith, ◌>>=◌,
}
use kopilot.Base
use kopilot.Api.{Cluster, NamespacedName}
use kopilot.Session.{SessionManager, dial_cluster}
use kopilot.Http.{
  forwarded, forwarded_for, Body, no_body, close_body, Url, Request, Writer, fresh, copy_response,
  write_header, single_host,
}
use kopilot.Hub.{Env, State}
use kopilot.Hub.Config.{Config}
use kopilot.Hub.Subresources.{proxy_handler}
use kopilot.Hub.Peer.{proxy_prefix, list_peers, cert_path, manager, peer_handler}
use kopilot.Hub.Peer.Search.{peer_request, first_answer, Parses}
use kopilot.Hub.Peer.Routing.{RoutesSegments, IsClean, peer_handler-routed}
use kopilot.Hub.Relaying.{received, first_answer-first, proxy_handler-first_answer}
use kopilot.Hub.Relaying.Refusing.{proxy_handler-refused, first_answer-next}
use kopilot.Hub.Relaying.Sending.{handed_on, with_user_agent-given}

-- A hub as it is when a request reaches it.
pub record PeerHub : Type 1 where
  pub env : Env
  pub config : Config
  pub state : State env
  -- The address under which it sees the hub that is asked.
  pub caller : String
  -- gorilla/mux takes paths apart by segments.
  pub routes : RoutesSegments env

-- A request as the server gets it: without a scheme and host in its URL, and from this address.
abbrev pub arrived : String → Request → Request
arrived caller out = record out { scheme = ""; host = ""; client = some caller }

module _ (here : Env) (c : Config) (cert : here.Certificate) where
  open here use {World, peer_round_trip}

  -- The transport from the hub that is asked brings back what the handler of the peer with this
  -- address writes, and leaves this world.
  abbrev pub Links : String → PeerHub → World → World → Type 0
  Links peer hub v v' =
      (out : Request) (x : Writer) (t : State hub.env)
      → out.host ≡ peer
      → peer_handler hub.env hub.config fresh (arrived hub.caller out) hub.state ≡ done (x, t)
      → peer_round_trip cert out v ≡ (ok (received x), v')

  module _ (key : NamespacedName) (rest : String) (r : Request) where
    -- The forwarded header behind peers that were tried: each try appends the client's address.
    unfoldable pub forwards : List String → Table String → Table String
    forwards [] header = header
    forwards (p ∷ ps) header = forwards ps (forwarded_for r.client header)

    -- The client's request as a peer gets it, when the peers before it were tried in vain.
    abbrev pub relayed : List String → String → Request
    relayed before caller = record r {
      scheme = "";
      host = "";
      path = proxy_prefix key.namespace key.name ++ ("/" ++ rest);
      header = forwarded_for r.client (forwards before (forwarded_for r.client r.header));
      client = some caller;
    }

    -- What the hub answers to a request by itself, with no peers to go on to.
    abbrev pub Answers : PeerHub → Request → Writer → Type 0
    Answers hub q answer =
        (t : State hub.env) × (proxy_handler hub.env hub.config none key ("/" ++ rest) fresh q
            hub.state
          ≡ done (answer, t))

    -- A peer that finds the cluster, and has no session of it that grants a stream.
    pub record Lacks (peer : String) (v v' : World) : Type 1 where
      pub hub : PeerHub
      pub target : Url
      pub parses : hub.env.url_parse "http://127.0.0.1" ≡ ok target
      pub cluster : Cluster hub.env.kube
      pub error : Error
      pub manager_after : SessionManager hub.env.net
      pub world_after : hub.env.World
      pub found : (hub.env.get_cluster key.namespace key.name hub.state.1).0 ≡ ok cluster
      pub dialled :
          dial_cluster hub.env.net key hub.state.0
            (hub.env.get_cluster key.namespace key.name hub.state.1).1
          ≡ done (err error, manager_after, world_after)
      pub links : Links peer hub v v'
      pub clean : IsClean hub.env key.namespace key.name rest

    -- Peers none of which has a session, asked one after the other.
    pub data AllLack : List String → World → World → Type 1 where
      no_more : (v : World) → AllLack [] v v
      then_lacks :
          (peer : String) (more : List String) (v v' v'' : World)
          → Lacks peer v v'
          → AllLack more v' v''
          → AllLack (peer ∷ more) v v''

    Lacks-Answers :
        {peer : String} {v v' : World} (lacks : Lacks peer v v') (q : Request)
        → Answers lacks.hub q (write_header 502 fresh)
    Lacks-Answers lacks q =
        let hub = lacks.hub in
        (
          (lacks.manager_after, lacks.world_after),
          proxy_handler-refused hub.env hub.config key rest lacks.target fresh q hub.state.0
              lacks.manager_after hub.state.1 lacks.world_after lacks.error lacks.cluster
              lacks.parses lacks.found lacks.dialled,
        )

    module _ (free : SlashFree key.name) (named : key.name ≢ "") (ns_free : SlashFree key.namespace)
        (ns_named : key.namespace ≢ "") where
      peer_request-received :
          (hub : PeerHub) (q : Request) (peer : String) (answer : Writer) (v v' : World)
          → IsClean hub.env key.namespace key.name rest
          → Links peer hub v v'
          → Answers hub (arrived hub.caller (peer_request key ("/" ++ rest) q peer)) answer
          → peer_round_trip cert (peer_request key ("/" ++ rest) q peer) v
            ≡ (ok (received answer), v')
      peer_request-received hub q peer answer v v' clean links (t, answers) =
          links (peer_request key ("/" ++ rest) q peer) answer t refl (
            peer_handler-routed hub.env hub.routes hub.config key rest fresh
              (arrived hub.caller (peer_request key ("/" ++ rest) q peer)) hub.state ns_free
              ns_named free named clean
            ∙ answers)

      first_answer-AllLack :
          (before more : List String) (q : Request) (w : Writer) (m : SessionManager here.net)
          (v v' : World)
          → q.client ≡ r.client
          → AllLack before v v'
          → first_answer here cert
              (peer_request key ("/" ++ rest) q)
              (Base.◌++◌ before more)
              w
              (m, v)
            ≡ first_answer here cert
                (peer_request key ("/" ++ rest) (record q { header = forwards before q.header }))
                more
                w
                (m, v')
      unfolding received write_header forwards
      first_answer-AllLack before more q w m v v' same (no_more v₀) = refl
      first_answer-AllLack before more q w m v v' same (then_lacks peer later v₀ v₁ v₂ lacks lack) =
          let got =
            peer_request-received lacks.hub (forwarded q) peer (write_header 502 fresh) v₀ v₁
              lacks.clean lacks.links
              (Lacks-Answers lacks
                (arrived lacks.hub.caller (peer_request key ("/" ++ rest) (forwarded q) peer))) in
          first_answer-next here cert _ peer (Base.◌++◌ later more) w m v₀ v₁ _ got refl
          ∙ first_answer-AllLack later more (forwarded q) w m v₁ v₂ same lack
          ∙ ap
              (λ (client : Option String).
                first_answer here cert
                  (peer_request key ("/" ++ rest)
                    (record q { header = forwards later (forwarded_for client q.header) }))
                  more w (m, v₂))
              same

      -- A hub none of whose sessions grants a stream relays a request with no body to its peers, in
      -- their order: its client gets what the first that has a session answers to it, with no peers
      -- of its own to go on to, if that is no 502. That peer gets the client's request under its own
      -- route, with the client's address appended to the forwarded header once for the hub's own
      -- try and once for each peer tried. The peers before it find the
      -- cluster and have no session of it that grants a stream; any number of peers may follow.
      -- Assumed: the request has a user agent that is not empty, the key's parts have no slash and are not empty, the path is clean for the routers
      -- of the peers, which take it apart by segments, the first hub finds the cluster, can list its
      -- peers and load its certificate, the URLs that the hubs use parse, no peer is an empty text,
      -- and the transport brings back what a peer's handler writes.
      pub proxy_handler-FindsSession :
          (bodiless : r.body ≡ no_body) (agent : String)
          (has : lookup "User-Agent" r.header ≡ some agent) (sends : agent ≢ "") (target : Url)
          (loads : (v : World)
            → here.load_key_pair (cert_path here c "tls.crt") (cert_path here c "tls.key") v
              ≡ ok cert)
          (parses : here.url_parse "http://127.0.0.1" ≡ ok target) (before : List String)
          (peer : String) (more : List String)
          (good : All (λ p. (p ≢ "") × Parses here key p) (Base.◌++◌ before (peer ∷ more)))
          (w : Writer) (m m' : SessionManager here.net) (v v₁ v₂ v₃ : World)
          (cluster : Cluster here.kube) (er : Error) (hub : PeerHub) (answer : Writer)
          → (here.get_cluster key.namespace key.name v).0 ≡ ok cluster
          → dial_cluster here.net key m (here.get_cluster key.namespace key.name v).1
            ≡ done (err er, m', v₁)
          → (list_peers here c v₁).0 ≡ ok (Base.◌++◌ before (peer ∷ more))
          → AllLack before (list_peers here c v₁).1 v₂
          → IsClean hub.env key.namespace key.name rest
          → Links peer hub v₂ v₃
          → Answers hub (relayed before hub.caller) answer
          → (received answer).status ≢ 502
          → proxy_handler here c (some (manager here c)) key ("/" ++ rest) w r (m, v)
            ≡ done (copy_response (received answer) w, (m', v₃))
      unfolding single_host
      proxy_handler-FindsSession bodiless agent has sends target loads parses before peer more good
            w m m' v v₁ v₂ v₃ cluster er hub answer found dialled listed lack clean links answers
            other =
          let q = handed_on target ("/" ++ rest) r in
          let q' : Request = record q { header = forwards before q.header } in
          let closed : close_body r.body ≡ r.body = ap close_body bodiless ∙ sym bodiless in
          let asked =
            subst
              (λ (x : Body × Table String).
                Answers hub
                  (record (relayed before hub.caller) {
                    body = x.0;
                    header = forwarded_for r.client (forwards before (forwarded_for r.client x.1));
                  })
                  answer)
              (λ i. (sym closed i, sym (with_user_agent-given r.header agent has) i)) answers in
          proxy_handler-first_answer here c key rest cert loads free named target parses
            (Base.◌++◌ before (peer ∷ more)) good w r m m' v v₁ cluster er found dialled listed
          ∙ ap done (
              first_answer-AllLack before (peer ∷ more) q w m' _ v₂ refl lack
              ∙ first_answer-first here cert _ peer more w m' v₂ v₃ (received answer)
                  (peer_request-received hub (forwarded q') peer answer v₂ v₃ clean links asked)
                  other)
