-- ===== src/Hub/Concurrent/Obeying.antt =====
-- What the routines of the handlers may do along every course of their calls.
use kopilot.Base.{
  if◌then◌else◌, length, drop, get_elem?-drop-nil, get_elem?-drop-cons, ◌<◌, ◌≡◌, refl, arith, [],
  ◌∷◌, ℕ, zero, suc, inl, inr, String, List, Bool, true, false, Option, none, some, Error, Result,
  ok, err, Bool-cases, ◌==◌,
}
use kopilot.Api.{Cluster, NamespacedName}
use kopilot.Http.{forwarded, cannot_write, write, Url, Request, Response, Writer, query_get}
use kopilot.Hub.{Env}
use kopilot.Hub.Config.{Config}
use kopilot.Hub.Subresources.{next_peer}
use kopilot.Hub.Peer.{list_peers}
use kopilot.Hub.Concurrent.{Routine, answers, panics, starves, asks, adds, dials, ◌>>=◌}
use kopilot.Hub.Concurrent.Serving.{
  Service, RoutineProxy, relay, serve, found_cluster, looks_up, checks_token,
}
use kopilot.Hub.Concurrent.Handlers.{
  needs, agent_rest, agent_routine, registers, multiplexes, connect_rest, connect_routine, over,
  transport_routine, peer_errors, peer_forward, sends_on, targets, try_routine, try_next_routine,
  searches, errors_routine, local_forward, forwards, proxy_routine, routes, peer_routine,
}

module _ (e : Env) (may_panic may_add : Type 0) where
  open e use {World}

  -- A routine that panics only where that is allowed, adds only where that is, and never runs out
  -- of fuel.
  unfoldable pub Obeys : {A : Type 0} → Routine e A → Type 0
  Obeys (answers a) = Unit
  Obeys panics = may_panic
  Obeys starves = ⊥
  Obeys (asks move k) = (v : World) → Obeys (k v)
  Obeys (adds key sess k) = may_add × Obeys k
  Obeys (dials key k) = (d : Result e.Conn) → Obeys (k d)

  Obeys->>= :
      {A B : Type 0} (m : Routine e A) (k : A → Routine e B)
      → Obeys m
      → ((a : A) → Obeys (k a))
      → Obeys (m >>= k)
  unfolding Obeys ◌>>=◌
  Obeys->>= (answers a) k h hs = hs a
  Obeys->>= panics k h hs = h
  Obeys->>= starves k h hs = h
  Obeys->>= (asks move f) k h hs = λ v. Obeys->>= (f v) k (h v) hs
  Obeys->>= (adds key sess f) k (may, h) hs = (may, Obeys->>= f k h hs)
  Obeys->>= (dials key f) k h hs = λ d. Obeys->>= (f d) k (h d) hs

  module _ (rp : RoutineProxy e) (quiet : (out : Request) → Obeys (rp.transport out))
      (fails : (w : Writer) (r : Request) (er : Error) → Obeys (rp.error_handler w r er)) where
    relay-Obeys :
        (w : Writer) (out : Request) (res : Result Response) → Obeys (relay e rp w out res)
    unfolding relay Obeys
    relay-Obeys w out (err er) = fails w _ er
    relay-Obeys w out (ok resp) =
        elim (rp.modify_response resp)
          as (λ o. Obeys (elim o [
            | some er ↦
                rp.error_handler w (record out { body = kopilot.Http.close_body out.body }) er
            | none ↦ answers (kopilot.Http.copy_response resp w)
          ])) [ none ↦ tt | some er ↦ fails w _ er ]

    serve-Obeys : (w : Writer) (r : Request) → Obeys (serve e rp w r)
    unfolding serve
    serve-Obeys w r =
        let out = forwarded (rp.director r) in
        Obeys->>= (rp.transport out) _ (quiet out) (relay-Obeys w out)

  looks_up-Obeys :
      (key : NamespacedName) (body : Cluster e.kube → Service e) (w : Writer) (r : Request)
      → ((cluster : Cluster e.kube) → Obeys (body cluster w r))
      → Obeys (looks_up e key body w r)
  unfolding looks_up ◌>>=◌ Obeys
  looks_up-Obeys key body w r quiet v = go (e.get_cluster key.namespace key.name v).0
    where
      go : (got : Result (Cluster e.kube)) → Obeys (found_cluster e body w r got)
      go (ok cluster) = quiet cluster
      go (err er) = tt

  module _ (c : Config) where
    needs-Obeys :
        {A : Type 0} (got : Result A) (k : A → Routine e Writer)
        → ((a : A) → got ≡ ok a → Obeys (k a))
        → ((er : Error) → got ≡ err er → may_panic)
        → Obeys (needs e c got k)
    unfolding needs Obeys
    needs-Obeys (ok a) k quiet fails = quiet a refl
    needs-Obeys (err er) k quiet fails = fails er refl

    transport-Obeys : (key : NamespacedName) (out : Request) → Obeys (transport_routine e c key out)
    unfolding transport_routine Obeys over
    transport-Obeys key out (ok conn) = λ v. tt
    transport-Obeys key out (err er) = tt

    module _ (retry : Writer → Request → Error → Routine e Writer)
        (quiet : (w : Writer) (r : Request) (er : Error) → Obeys (retry w r er))
        (key : NamespacedName) where
      peer_errors-Obeys :
          (w : Writer) (r : Request) (er : Error) → Obeys (peer_errors e c retry key w r er)
      unfolding peer_errors Obeys
      peer_errors-Obeys w r er = elim (Bool-cases (er.text == "")) [
        | inl h ↦ rw (h, peer_errors) (quiet w _ er)
        | inr h ↦ rw (h, peer_errors) tt
      ]

      targets-Obeys :
          (w : Writer) (r : Request) (parsed : Result Url)
          → Obeys (targets e c retry key w r parsed)
      unfolding targets Obeys ◌>>=◌ peer_forward sends_on
      targets-Obeys w r (err er) = tt
      targets-Obeys w r (ok target) = λ v. go _
        where
          go : (loaded : Result e.Certificate) → Obeys (sends_on e c retry key target w r loaded)
          go (err er) = tt
          go (ok cert) = serve-Obeys _ (λ out v. tt) peer_errors-Obeys w r

      try-Obeys :
          (peer : String) (w : Writer) (r : Request) → Obeys (try_routine e c retry peer key w r)
      unfolding try_routine Obeys
      try-Obeys peer w r = elim (Bool-cases (peer == "")) [
        | inl h ↦ rw (h, try_routine) tt
        | inr h ↦ rw (h, try_routine) (targets-Obeys w r _)
      ]

    -- The search does not run out of fuel, where the peers `ps` are left.
    try_next-Obeys :
        (all : List String) (fuel calls : ℕ) (ps : List String) (key : NamespacedName) (w : Writer)
        (r : Request) (er : Error)
        → drop calls all ≡ ps
        → length ps < fuel
        → Obeys (try_next_routine e c fuel (next_peer all) calls key w r er)
    unfolding try_next_routine next_peer Obeys
    try_next-Obeys all zero calls ps key w r er left enough = absurd (omega arith)
    try_next-Obeys all (suc fuel) calls [] key w r er left enough =
        rw (get_elem?-drop-nil all calls left, next_peer) (unfold try_routine in tt)
    try_next-Obeys all (suc fuel) calls (p ∷ ps) key w r er left enough =
        let (here, after) = get_elem?-drop-cons all calls p ps left in
        rw (here, next_peer)
          (try-Obeys (try_next_routine e c fuel (next_peer all) (suc calls) key)
            (λ w' r' er'. try_next-Obeys all fuel (suc calls) ps key w' r' er' after (omega arith))
            key p w r)

    errors-Obeys :
        (has_peers : Bool) (key : NamespacedName) (w : Writer) (r : Request) (er : Error)
        → Obeys (errors_routine e c has_peers key w r er)
    unfolding errors_routine Obeys ◌>>=◌ searches
    errors-Obeys false key w r er = tt
    errors-Obeys true key w r er = λ v. go (list_peers e c v).0
      where
        go : (listed : Result (List String)) → Obeys (searches e c key w r er listed)
        go (err er') = tt
        go (ok peers) =
            try_next-Obeys peers (suc (length peers)) 0 peers key w r er refl (omega arith)

    module _ (no_target : (er : Error) → e.url_parse "http://127.0.0.1" ≡ err er → may_panic) where
      pub proxy-Obeys :
          (has_peers : Bool) (key : NamespacedName) (sub : String) (w : Writer) (r : Request)
          → Obeys (proxy_routine e c has_peers key sub w r)
      unfolding proxy_routine Obeys
      proxy-Obeys has_peers key sub w r =
          looks_up-Obeys key _ w r (λ cluster. go (e.url_parse "http://127.0.0.1") refl w r)
        where
          go :
              (parsed : Result Url)
              → e.url_parse "http://127.0.0.1" ≡ parsed
              → (w : Writer) (r : Request) → Obeys (forwards e c has_peers key sub parsed w r)
          go (err er) q w r = no_target er q
          go (ok target) q w r =
              serve-Obeys (local_forward e c has_peers key sub target) (transport-Obeys key)
                (errors-Obeys has_peers key) w r

      pub peer-Obeys : (w : Writer) (r : Request) → Obeys (peer_routine e c w r)
      unfolding peer_routine Obeys
      peer-Obeys w r = elim (Bool-cases (e.clean_path r.path == r.path)) [
        | inl h ↦ rw (h, peer_routine) (go (e.route_vars r.path))
        | inr h ↦ rw (h, peer_routine) tt
      ]
        where
          go : (vars : Option (String × String)) → Obeys (routes e c vars w r)
          go none = tt
          go (some (namespace, name)) = proxy-Obeys false _ _ w r

    checks_token-Obeys :
        (rest : String → Service e) (w : Writer) (r : Request)
        → ((token : String) → Obeys (rest token w r))
        → (cluster : Cluster e.kube) → Obeys (checks_token e rest cluster w r)
    unfolding checks_token Obeys
    checks_token-Obeys rest w r quiet cluster =
        elim (Bool-cases (query_get r "token" == cluster.token)) [
          | inl h ↦ rw h (quiet _)
          | inr h ↦ rw h tt
        ]

    pub agent-Obeys :
        (key : NamespacedName)
        → ((er : Error) → e.template_parse e.agent_yaml_template ≡ err er → may_panic)
        → ((tmpl : e.Template) (image url : String) (er : Error)
            → e.template_parse e.agent_yaml_template ≡ ok tmpl
            → e.template_execute tmpl (("imageName", image) ∷ ("connectURL", url) ∷ []) ≡ err er
            → may_panic)
        → (w : Writer) (r : Request) → ((text : String) → cannot_write text w ≡ true → may_panic)
        → Obeys (agent_routine e c key w r)
    unfolding agent_routine agent_rest Obeys
    agent-Obeys key no_template no_text w r no_write = looks_up-Obeys key _ w r (
        checks_token-Obeys _ w r (λ token.
          needs-Obeys (e.template_parse e.agent_yaml_template) _
            (λ tmpl parsed.
              needs-Obeys (e.template_execute tmpl _) _ (λ text written. writes text)
                (λ er. no_text tmpl _ _ er parsed))
            no_template))
      where
        writes :
            (text : String)
            → Obeys {A = Writer} (if cannot_write text w then panics else answers (write text w))
        writes text = elim (Bool-cases (cannot_write text w)) [
          | inl fails ↦ rw fails (no_write text fails)
          | inr fine ↦ rw fine tt
        ]

    pub connect-Obeys :
        (may : may_add) (key : NamespacedName) (w : Writer) (r : Request)
        → Obeys (connect_routine e c key w r)
    unfolding connect_routine connect_rest multiplexes registers Obeys ◌>>=◌
    connect-Obeys may key w r =
        looks_up-Obeys key _ w r (checks_token-Obeys _ w r (λ token v. go (e.upgrade w r v).0))
      where
        served : (w : Writer) (got : Result e.Session) → Obeys (registers e c key w got)
        served w (err er) = tt
        served w (ok sess) = (may, tt)

        go : (upgraded : Result e.WsConn × Writer) → Obeys (multiplexes e c key upgraded)
        go (err er, w) = tt
        go (ok conn, w) = λ v. served w (e.yamux_server conn v).0
