-- ===== src/Hub/Subresources/Access.antt =====
-- Who passes the token check of the subresources "agent" and "connect", and how others are refused.
use Prim.Native.String.{◌++◌}
use kopilot.Base.{
  ◌≢◌, true, subst, ℕ, ◌≡◌, ◌↔◌, ap, ◌⊎◌, inl, inr, String, [], ◌∷◌, false, Option, none, some,
  if◌then◌else◌, ◌==◌, eq_iff, Result-cases, Bool-cases, Result, ok, err, is_ok, done, panicked,
  Outcome, arith,
}
use kopilot.Api.{Cluster, NamespacedName}
use kopilot.Session.{SessionManager, add_cluster_session}
use kopilot.Http.Proxied.{cannot_write-true, cannot_write-fails}
use kopilot.Http.{Request, Writer, fresh, query_get, http_error, cannot_write, write}
use kopilot.Hub.{Env, State, Handler, is_not_found}
use kopilot.Hub.Config.{Config}
use kopilot.Hub.Subresources.{
  with_cluster, with_token, agent_body, connect_body, agent_handler, connect_handler, connect_url,
}

module _ (e : Env) (c : Config) (key : NamespacedName) where
  open e use {
    World, Session, Template, get_cluster, template_parse, template_execute, agent_yaml_template,
  }

  -- The request shows the token of the cluster, as the API server has it in the world `v`.
  abbrev pub IsAuthentic : Request → World → Type 0
  IsAuthentic r v =
      (cluster : Cluster e.kube) × ((get_cluster key.namespace key.name v).0 ≡ ok cluster)
      × (query_get r "token" ≡ cluster.token)

  -- The status for what the API server says of the cluster and for the token shown; none if the
  -- request may pass.
  abbrev pub refusal : Result (Cluster e.kube) → String → Option ℕ
  refusal (err er) token = some (if is_not_found er then 404 else 500)
  refusal (ok cluster) token = if token == cluster.token then none else some 401

  -- A request that gets through the checks of a handler; any other leaves the registry.
  passes :
      (body : String → Handler e) (w w' : Writer) (r : Request) (m m' : SessionManager e.net)
      (v v' : World)
      → with_cluster e key (with_token e body) w r (m, v) ≡ done (w', (m', v'))
      → (m' ≡ m)
        ⊎ (IsAuthentic r v
            × (body (query_get r "token") w r (m, (get_cluster key.namespace key.name v).1)
                ≡ done (w', (m', v'))))
  unfolding with_cluster with_token
  passes body w w' r m m' v v' h = elim (Result-cases (get_cluster key.namespace key.name v).0) [
    | inr (er, q) ↦ inl (ground arith)
    | inl (cluster, q) ↦ elim (Bool-cases (query_get r "token" == cluster.token)) [
      | inl shown ↦ inr ((cluster, q, (eq_iff _ _).0 shown), ground arith)
      | inr other ↦ inl (ground arith)
    ]
  ]

  connect_body_registers :
      (token : String) (w w' : Writer) (r : Request) (m m' : SessionManager e.net) (v v' : World)
      → connect_body e c key token w r (m, v) ≡ done (w', (m', v'))
      → (m' ≡ m) ⊎ ((s : Session) × (m' ≡ add_cluster_session e.net key s m))
  unfolding connect_body
  connect_body_registers token w w' r m m' v v' h =
      let ((upgraded, w₁), v₁) = e.upgrade w r v in
      elim (Result-cases upgraded) [
        | inr (er, q) ↦ inl (ground arith)
        | inl (conn, q) ↦ elim (Result-cases (e.yamux_server conn v₁).0) [
          | inr (er, q') ↦ inl (ground arith)
          | inl (s, q') ↦ inr (s, ground arith)
        ]
      ]

  -- The connect handler registers at most one session, for its own cluster, and only on a request
  -- that shows the cluster's token; otherwise it leaves the registry as it was.
  pub connect_handler-IsAuthentic :
      (w w' : Writer) (r : Request) (m m' : SessionManager e.net) (v v' : World)
      → connect_handler e c key w r (m, v) ≡ done (w', (m', v'))
      → (m' ≡ m) ⊎ ((s : Session) × IsAuthentic r v × (m' ≡ add_cluster_session e.net key s m))
  unfolding connect_handler
  connect_handler-IsAuthentic w w' r m m' v v' h =
      elim (passes (connect_body e c key) w w' r m m' v v' h) [
        | inl same ↦ inl same
        | inr (authentic, rest) ↦
            elim (connect_body_registers (query_get r "token") w w' r m m' _ v' rest) [
              | inl same ↦ inl same
              | inr (s, added) ↦ inr (s, authentic, added)
            ]
      ]

  refuses :
      (r : Request) (m : SessionManager e.net) (v : World) (code : ℕ)
      → refusal (get_cluster key.namespace key.name v).0 (query_get r "token") ≡ some code
      → (w : Writer) × (w.status ≡ some code)
        × ((body : String → Handler e)
            → with_cluster e key (with_token e body) fresh r (m, v)
              ≡ done (w, (m, (get_cluster key.namespace key.name v).1)))
  unfolding with_cluster with_token http_error
  refuses r m v code h = elim (Result-cases (get_cluster key.namespace key.name v).0) [
    | inr (er, q) ↦ elim (Bool-cases (is_not_found er)) [
      | inl missing ↦ (http_error "Not Found" 404 fresh, ground arith, λ body. ground arith)
      | inr failed ↦ (
        http_error ("failed to get cluster: " ++ er.text) 500 fresh,
        ground arith,
        λ body. ground arith,
      )
    ]
    | inl (cluster, q) ↦ (http_error "Unauthorized" 401 fresh, ground arith, λ body. ground arith)
  ]

  -- A request for a cluster that is missing gets 404, one whose lookup fails otherwise gets 500,
  -- and one that shows another token than the cluster's gets 401: from the agent handler and the
  -- connect handler alike, and without a change of the registry.
  pub refusal_lem :
      (r : Request) (m : SessionManager e.net) (v : World) (code : ℕ)
      → refusal (get_cluster key.namespace key.name v).0 (query_get r "token") ≡ some code
      → (w : Writer) × (w.status ≡ some code)
        × (agent_handler e c key fresh r (m, v)
            ≡ done (w, (m, (get_cluster key.namespace key.name v).1)))
        × (connect_handler e c key fresh r (m, v)
            ≡ done (w, (m, (get_cluster key.namespace key.name v).1)))
  unfolding agent_handler connect_handler
  refusal_lem r m v code h =
      let (w, status, all) = refuses r m v code h in
      (w, status, all (agent_body e c key), all (connect_body e c key))

  panics_iff :
      (body : String → Handler e) (w : Writer) (r : Request) (m : SessionManager e.net) (v : World)
      → (with_cluster e key (with_token e body) w r (m, v) ≡ panicked) ↔ (
          IsAuthentic r v
          × (body (query_get r "token") w r (m, (get_cluster key.namespace key.name v).1)
              ≡ panicked))
  unfolding with_cluster with_token
  panics_iff body w r m v = (
    λ h. elim (Result-cases (get_cluster key.namespace key.name v).0) [
      | inr (er, q) ↦ absurd (ground arith)
      | inl (cluster, q) ↦ elim (Bool-cases (query_get r "token" == cluster.token)) [
        | inl shown ↦ ((cluster, q, (eq_iff _ _).0 shown), ground arith)
        | inr other ↦ absurd (ground arith)
      ]
    ],
    λ ((cluster, q, shown), p). ground (arith, eq_iff (query_get r "token") cluster.token),
  )

  executed-panicked :
      (text : String) (w : Writer) (s : State e)
      → ◌≡◌ {A = Outcome (Writer × State e)}
          (if cannot_write text w then panicked else done (write text w, s))
          panicked
      → cannot_write text w ≡ true
  executed-panicked text w s h = ground arith

  agent_body-panics_iff :
      (token : String) (w : Writer) (r : Request) (s : State e)
      → (agent_body e c key token w r s ≡ panicked) ↔ (
          (is_ok (template_parse agent_yaml_template) ≡ false)
          ⊎ ((tmpl : Template) × (template_parse agent_yaml_template ≡ ok tmpl)
              × (is_ok (
                    template_execute tmpl (
                      ("imageName", c.agent_image)
                      ∷ ("connectURL", connect_url e c key token)
                      ∷ []))
                  ≡ false))
          ⊎ ((tmpl : Template) × (text : String) × (template_parse agent_yaml_template ≡ ok tmpl)
              × (template_execute tmpl
                    (("imageName", c.agent_image) ∷ ("connectURL", connect_url e c key token) ∷ [])
                  ≡ ok text)
              × (text ≢ "")
              × ((w.fails ≡ true) ⊎ (w.hijacked ≡ true))))
  unfolding agent_body
  agent_body-panics_iff token w r s = elim (Result-cases (template_parse agent_yaml_template)) [
    | inr (er, q) ↦ (λ _. inl (ap is_ok q), λ _. ground arith)
    | inl (tmpl, q) ↦
        elim (Result-cases (
          template_execute tmpl
            (("imageName", c.agent_image) ∷ ("connectURL", connect_url e c key token) ∷ []))) [
              | inr (er, q') ↦ (λ _. inr (inl (tmpl, q, ap is_ok q')), λ _. ground arith)
              | inl (text, q') ↦ (
                λ h.
                    let (full, fails) =
                      cannot_write-true text w (executed-panicked text w s (ground arith)) in
                    inr (inr (tmpl, text, q, q', full, fails)),
                elim [
                  | inl bad ↦ absurd (ground arith)
                  | inr (inl (t, t_ok, bad)) ↦ absurd (ground arith)
                  | inr (inr (t, text', t_ok, text_ok, nonempty, fails)) ↦
                      let e : text' ≡ text = ground arith in
                      ground
                        (arith, cannot_write-fails text w (subst (λ x. x ≢ "") e nonempty) fails)
                ],
              )
            ]
  ]

  -- The agent handler panics exactly if the request shows the cluster's token and the manifest's
  -- template does not parse, or cannot be filled in with the image and the connect URL, or fills in
  -- to a text, not empty, that cannot be written to the client.
  pub agent_handler-panics_iff :
      (w : Writer) (r : Request) (m : SessionManager e.net) (v : World)
      → (agent_handler e c key w r (m, v) ≡ panicked) ↔ (
          IsAuthentic r v
          × ((is_ok (template_parse agent_yaml_template) ≡ false)
              ⊎ ((tmpl : Template) × (template_parse agent_yaml_template ≡ ok tmpl)
                  × (is_ok (
                        template_execute tmpl (
                          ("imageName", c.agent_image)
                          ∷ ("connectURL", connect_url e c key (query_get r "token"))
                          ∷ []))
                      ≡ false))
              ⊎ ((tmpl : Template) × (text : String) × (template_parse agent_yaml_template
                    ≡ ok tmpl)
                  × (template_execute tmpl (
                        ("imageName", c.agent_image)
                        ∷ ("connectURL", connect_url e c key (query_get r "token"))
                        ∷ [])
                      ≡ ok text)
                  × (text ≢ "")
                  × ((w.fails ≡ true) ⊎ (w.hijacked ≡ true)))))
  unfolding agent_handler
  agent_handler-panics_iff w r m v =
      let (to, from) = panics_iff (agent_body e c key) w r m v in
      let (to', from') =
        agent_body-panics_iff (query_get r "token") w r
          (m, (get_cluster key.namespace key.name v).1) in
      (λ h. let (a, p) = to h in (a, to' p), λ (a, p). from (a, from' p))

  -- The agent handler leaves the registry as it was.
  pub agent_handler-keeps :
      (w w' : Writer) (r : Request) (m m' : SessionManager e.net) (v v' : World)
      → agent_handler e c key w r (m, v) ≡ done (w', (m', v'))
      → m' ≡ m
  unfolding agent_handler
  agent_handler-keeps w w' r m m' v v' h = elim (passes (agent_body e c key) w w' r m m' v v' h) [
    | inl same ↦ same
    | inr (_, rest) ↦ agent_body_keeps (query_get r "token") _ rest
  ]
    where
      agent_body_keeps :
          (token : String) (v₁ : World)
          → agent_body e c key token w r (m, v₁) ≡ done (w', (m', v'))
          → m' ≡ m
      agent_body_keeps token v₁ h' = unfold agent_body in ground arith
