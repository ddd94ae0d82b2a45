-- ===== src/Hub/Peer/Search.antt =====
-- The search of `TryNextPeer` as a function on the list of peers: what it asks each of them, and
-- which answer it passes on.
use Prim.Native.String.{◌++◌}
use text.Mathlib.TextLemmas.{append_assoc}
use kopilot.Base.{
  eq_iff, ap₂, Table, lookup, some, ℕ, zero, suc, ◌<◌, ◌≡◌, ◌≢◌, refl, sym, ap, ◌∙◌, String, List,
  [], ◌∷◌, false, if◌then◌else◌, ◌==◌, nat_eq, trim_prefix-append, text_eq-false, Error, errorf, ok,
  err, Result-cases, Outcome, done, All, length, get_elem?-drop-nil, get_elem?-drop-cons, drop,
  SlashFree, arith, inl, inr,
}
use kopilot.Api.{NamespacedName}
use kopilot.Http.Proxied.{lookup-forwarded_for, serve_http-director}
use kopilot.Http.{
  forwarded, Url, with_user_agent, close_body, Request, Writer, write_header, copy_response,
  single_host, serve_http, single_joining_slash, ends_with_slash, single_joining_slash-append,
  ends_with_slash-append_SlashFree,
}
use kopilot.Session.{SessionManager}
use kopilot.Hub.{Env, State}
use kopilot.Hub.Config.{Config}
use kopilot.Hub.Subresources.{next_peer}
use kopilot.Hub.Peer.{proxy_prefix, cert_path, peer_proxy, try_peer, try_next_peer}

-- The request that a peer gets: the path of the cluster's route in front of the subpath.
abbrev pub peer_request : NamespacedName → String → Request → String → Request
peer_request key subpath r peer = record r {
  scheme = "https";
  host = peer;
  path = proxy_prefix key.namespace key.name ++ subpath;
}

module _ (e : Env) where
  open e use {World, url_parse, Certificate, load_key_pair, peer_round_trip}

  -- The peers are asked in their order. An answer other than 502 is passed on; after a 502, or an
  -- error with no text, comes the next; any other error ends the search, and so does the list.
  -- Each gets the request with the client's address appended once more to the forwarded header.
  unfoldable pub first_answer :
      Certificate → (String → Request) → List String → Writer → State e → Writer × State e
  first_answer cert ask [] w s = (write_header 502 w, s)
  first_answer cert ask (p ∷ ps) w (m, v) =
      let (res, v') = peer_round_trip cert (forwarded (ask p)) v in
      let next = first_answer cert (λ q. forwarded (ask q)) ps w (m, v') in
      elim res [
        | err er ↦ if er.text == "" then next else (write_header 502 w, (m, v'))
        | ok resp ↦ if nat_eq resp.status 502 then next else (copy_response resp w, (m, v'))
      ]

  -- `url.Parse` takes the URL of a peer's route apart.
  abbrev pub Parses : NamespacedName → String → Type 0
  Parses key peer =
      url_parse ("https://" ++ (peer ++ proxy_prefix key.namespace key.name))
      ≡ ok (record { scheme = "https"; host = peer; path = proxy_prefix key.namespace key.name })

  module _ (c : Config) (cert : Certificate)
      (loads : (v : World)
        → load_key_pair (cert_path e c "tls.crt") (cert_path e c "tls.key") v ≡ ok cert)
      (key : NamespacedName) (named : key.name ≢ "") (free : SlashFree key.name)
      (rest agent : String) where
    prefix_no_slash : ends_with_slash (proxy_prefix key.namespace key.name) ≡ false
    prefix_no_slash =
        ap ends_with_slash (
          ap (λ (t : String). "/proxy/" ++ t) (sym (append_assoc key.namespace "/" key.name))
          ∙ sym (append_assoc "/proxy/" (key.namespace ++ "/") key.name))
        ∙ ends_with_slash-append_SlashFree ("/proxy/" ++ (key.namespace ++ "/")) key.name free named

    joined :
        (r : Request)
        → r.path ≡ "/" ++ rest
        → lookup "User-Agent" r.header ≡ some agent
        → (p : String)
        → single_host
            (record { scheme = "https"; host = p; path = proxy_prefix key.namespace key.name })
            r
          ≡ peer_request key ("/" ++ rest) r p
    unfolding single_host with_user_agent
    joined r at has p =
        ap₂
          (λ (q : String) (h : Table String). record r {
            scheme = "https";
            host = p;
            path = q;
            header = h;
          })
          (ap (single_joining_slash (proxy_prefix key.namespace key.name)) at
            ∙ single_joining_slash-append (proxy_prefix key.namespace key.name) rest
                prefix_no_slash)
          (rw (has, with_user_agent))

    asks_peer :
        (retry : Writer → Request → Error → State e → Outcome (Writer × State e)) (p : String)
        (w : Writer) (r : Request) (m : SessionManager e.net) (v : World)
        → close_body r.body ≡ r.body
        → serve_http
            (record (peer_proxy e c retry key
              (record { scheme = "https"; host = p; path = proxy_prefix key.namespace key.name })
              cert) { director = λ _. peer_request key ("/" ++ rest) r p })
            w
            r
            (m, v)
          ≡ (let (res, v') =
                peer_round_trip cert (forwarded (peer_request key ("/" ++ rest) r p)) v in
              let back = record (forwarded r) { scheme = "https"; host = p; path = "/" ++ rest } in
              elim res [
                | err er ↦
                    if er.text == ""
                    then retry w back er (m, v')
                    else done (write_header 502 w, (m, v'))
                | ok resp ↦
                    if nat_eq resp.status 502
                    then retry w back (errorf "") (m, v')
                    else done (copy_response resp w, (m, v'))
              ])
    unfolding serve_http peer_proxy
    asks_peer retry p w r m v closed =
        ground (arith, trim_prefix-append (proxy_prefix key.namespace key.name) ("/" ++ rest))

    -- One round: the peer is asked, and the request that a retry starts from has its path back.
    try_peer-round :
        (retry : Writer → Request → Error → State e → Outcome (Writer × State e)) (p : String)
        (w : Writer) (r : Request) (m : SessionManager e.net) (v : World)
        → r.path ≡ "/" ++ rest
        → lookup "User-Agent" r.header ≡ some agent
        → close_body r.body ≡ r.body
        → p ≢ ""
        → Parses key p
        → try_peer e c retry p key w r (m, v) ≡ (
            let (res, v') =
              peer_round_trip cert (forwarded (peer_request key ("/" ++ rest) r p)) v in
            let back = record (forwarded r) { scheme = "https"; host = p; path = "/" ++ rest } in
            elim res [
              | err er ↦
                  if er.text == ""
                  then retry w back er (m, v')
                  else done (write_header 502 w, (m, v'))
              | ok resp ↦
                  if nat_eq resp.status 502
                  then retry w back (errorf "") (m, v')
                  else done (copy_response resp w, (m, v'))
            ])
    unfolding try_peer serve_http
    try_peer-round retry p w r m v at has closed nonempty parses =
        let to : Url = record {
          scheme = "https";
          host = p;
          path = proxy_prefix key.namespace key.name;
        } in
        rw (text_eq-false p "" nonempty, parses, loads v)
          (serve_http-director (peer_proxy e c retry key to cert) w r
              (peer_request key ("/" ++ rest) r p) (m, v) (joined r at has p)
            ∙ asks_peer retry p w r m v closed)

    module _ (all : List String) where
      -- The same from the middle of the search, where the peers `ps` are left.
      try_next_peer-first_answer_from :
          (fuel calls : ℕ) (ps : List String) (w : Writer) (r : Request) (er : Error)
          (m : SessionManager e.net) (v : World)
          → drop calls all ≡ ps
          → All (λ p. (p ≢ "") × Parses key p) ps
          → r.path ≡ "/" ++ rest
          → lookup "User-Agent" r.header ≡ some agent
          → close_body r.body ≡ r.body
          → length ps < fuel
          → try_next_peer e c fuel (next_peer all) calls key w r er (m, v)
            ≡ done (first_answer cert (peer_request key ("/" ++ rest) r) ps w (m, v))
      unfolding try_next_peer next_peer first_answer
      try_next_peer-first_answer_from zero calls ps w r er m v left good at has closed enough =
          absurd (omega arith)
      try_next_peer-first_answer_from (suc fuel) calls [] w r er m v left good at has closed
            enough =
          rw (get_elem?-drop-nil all calls left, next_peer) (unfold try_peer in refl)
      try_next_peer-first_answer_from (suc fuel) calls (p ∷ ps) w r er m v left
            ((nonempty, parses), good) at has closed enough =
          let (here, after) = get_elem?-drop-cons all calls p ps left in
          let (res, v') = peer_round_trip cert (forwarded (peer_request key ("/" ++ rest) r p)) v in
          let back = record (forwarded r) { scheme = "https"; host = p; path = "/" ++ rest } in
          let next = λ (er' : Error).
            try_next_peer-first_answer_from fuel (suc calls) ps w back er' m v' after good refl
              (lookup-forwarded_for "User-Agent" r.client r.header
                  (λ k. ground (arith, eq_iff "User-Agent" "X-Forwarded-For"))
                ∙ has)
              closed (omega arith) in
          rw (here, next_peer)
            (try_peer-round (try_next_peer e c fuel (next_peer all) (suc calls) key) p w r m v at
                has closed nonempty parses
              ∙ elim (Result-cases res) [
                | inl (resp, q) ↦ ground (arith, next (errorf ""))
                | inr (er', q) ↦ ground (arith, next er')
              ])

    -- `TryNextPeer` returns after it asked the peers in their order, each for the same cluster and
    -- subpath: the first answer other than 502 is passed on, and 502 if there is none; an error
    -- with a text ends the search with 502. Assumed: the certificate loads, the cluster's name is
    -- not empty and has no slash, the subpath begins with a slash, the request has a user agent
    -- (the local proxy has given it one) and no unread body (the local proxy has closed it), and no
    -- peer is an empty text or has a URL that does not parse. Fuel beyond the number of peers is
    -- enough.
    pub try_next_peer-first_answer :
        (peers : List String) (fuel : ℕ) (w : Writer) (r : Request) (er : Error) (s : State e)
        → All (λ p. (p ≢ "") × Parses key p) peers
        → r.path ≡ "/" ++ rest
        → lookup "User-Agent" r.header ≡ some agent
        → close_body r.body ≡ r.body
        → length peers < fuel
        → try_next_peer e c fuel (next_peer peers) 0 key w r er s
          ≡ done (first_answer cert (peer_request key ("/" ++ rest) r) peers w s)
    try_next_peer-first_answer peers fuel w r er s good at has closed enough =
        try_next_peer-first_answer_from peers fuel 0 peers w r er s.0 s.1 refl good at has closed
          enough
