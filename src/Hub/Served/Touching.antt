-- ===== src/Hub/Served/Touching.antt =====
-- Which of a hub's subresources touch its registry of sessions, and how.
use kopilot.Base.{
  ◌≡◌, refl, sym, ap, subst, ◌∙◌, ◌⊎◌, inl, inr, String, In, none, some, ok, done, done-injective,
}
use kopilot.Api.{NamespacedName}
use kopilot.Session.{SessionManager, Dialled, add_cluster_session, dial_cluster, IntnInRange}
use kopilot.Http.{Url, Request, Writer}
use kopilot.Hub.{Env, State, Handler}
use kopilot.Hub.Config.{Config}
use kopilot.Hub.Subresources.{proxy_handler}
use kopilot.Hub.Subresources.Access.{IsAuthentic, connect_handler-IsAuthentic, agent_handler-keeps}
use kopilot.Hub.Peer.{manager}
use kopilot.Hub.Proxying.{DialsOnce, proxy_handler-DialsOnce}
use kopilot.Hub.Served.{
  Subresource, new_agent_subresource, new_connect_subresource, new_proxy_subresource,
  hub_subresources,
}

none≢some {ℓ} : {A : Type ℓ} {a : A} → none ≡ some a → ⊥
none≢some q = cc

some-injective {ℓ} : {A : Type ℓ} (a b : A) → some a ≡ some b → a ≡ b
some-injective a b q = cc

module _ (e : Env) (c : Config) where
  open e use {World, Session, url_parse}

  -- The handler of a subresource: `Connect`, or `Route` with the rest of the path.
  pub data IsHandler (s : Subresource e) (key : NamespacedName) : Handler e → Type 0 where
    connects : IsHandler s key (s.connect key)
    routes :
        (route : NamespacedName → String → Handler e) (path : String)
        → s.route ≡ some route
        → IsHandler s key (route key path)

  -- The registry afterwards: as it was; for "connect", with a session added for a request that
  -- shows the token of the cluster; for "proxy", as one dial for the cluster left it.
  abbrev pub Touches :
      String
      → NamespacedName
      → Request
      → World
      → SessionManager e.net
      → SessionManager e.net
      → Type 0
  Touches name key r v m m' =
      (m' ≡ m)
      ⊎ ((name ≡ "connect")
          × (s : Session) × IsAuthentic e c key r v
          × (m' ≡ add_cluster_session e.net key s m))
      ⊎ ((name ≡ "proxy")
          × ((u : World) × (d : Dialled e.net) × (dial_cluster e.net key m u ≡ done d)
              × (m' ≡ d.1)))

  module _ (in_range : IntnInRange e.net) (target : Url)
      (parses : url_parse "http://127.0.0.1" ≡ ok target) where
    proxy-Touches :
        (key : NamespacedName) (sub : String) (w w' : Writer) (r : Request)
        (m m' : SessionManager e.net) (v v' : World)
        → proxy_handler e c (some (manager e c)) key sub w r (m, v) ≡ done (w', (m', v'))
        → Touches "proxy" key r v m m'
    proxy-Touches key sub w w' r m m' v v' h =
        let (w'', t, eq, once) =
          proxy_handler-DialsOnce e c key in_range target parses (some (manager e c)) (inr refl) sub
            w r m v in
        let same : t ≡ (m', v') =
          ap (λ (x : Writer × State e). x.1)
            (done-injective (w'', t) (w', (m', v')) (sym eq ∙ h)) in
        elim (subst (λ (x : State e). DialsOnce e c key m x.0) same once) [
          | inl kept ↦ inl kept
          | inr dialled ↦ inr (inr (refl, dialled))
        ]

    -- What each handler of a subresource does to the registry.
    Behaves : Subresource e → Type 0
    Behaves s =
        (key : NamespacedName) (handler : Handler e) (w w' : Writer) (r : Request)
        (m m' : SessionManager e.net) (v v' : World)
        → IsHandler s key handler
        → handler w r (m, v) ≡ done (w', (m', v'))
        → Touches s.name key r v m m'

    agent-Behaves : Behaves (new_agent_subresource e c)
    unfolding Behaves new_agent_subresource
    agent-Behaves key _ w w' r m m' v v' connects h =
        inl (agent_handler-keeps e c key w w' r m m' v v' h)
    agent-Behaves key _ w w' r m m' v v' (routes route path q) h = absurd (none≢some q)

    connect-Behaves : Behaves (new_connect_subresource e c)
    unfolding Behaves new_connect_subresource
    connect-Behaves key _ w w' r m m' v v' connects h =
        elim (connect_handler-IsAuthentic e c key w w' r m m' v v' h) [
          | inl same ↦ inl same
          | inr (sess, shown, added) ↦ inr (inl (refl, sess, shown, added))
        ]
    connect-Behaves key _ w w' r m m' v v' (routes route path q) h = absurd (none≢some q)

    proxy-Behaves : Behaves (new_proxy_subresource e c (some (manager e c)))
    unfolding Behaves new_proxy_subresource
    proxy-Behaves key _ w w' r m m' v v' connects h = proxy-Touches key "" w w' r m m' v v' h
    proxy-Behaves key _ w w' r m m' v v' (routes route path q) h =
        proxy-Touches key path w w' r m m' v v' (
          ap (λ (f : NamespacedName → String → Handler e). f key path w r (m, v))
            (some-injective _ route q)
          ∙ h)

    -- Of the subresources that the hub registers, only "connect" adds a session to the registry:
    -- one, for the cluster of the request, which shows the cluster's token. Only "proxy" dials,
    -- once, for the cluster of the request. Assumed: `rand.Intn` keeps to its range, and the URL of
    -- the local target parses.
    pub hub_subresources-Touches :
        (s : Subresource e) (key : NamespacedName) (handler : Handler e) (w w' : Writer)
        (r : Request) (m m' : SessionManager e.net) (v v' : World)
        → In s (hub_subresources e c)
        → IsHandler s key handler
        → handler w r (m, v) ≡ done (w', (m', v'))
        → Touches s.name key r v m m'
    unfolding hub_subresources Behaves
    hub_subresources-Touches s key handler w w' r m m' v v' i k h =
        behaves i key handler w w' r m m' v v' k h
      where
        behaves : In s (hub_subresources e c) → Behaves s
        behaves (inl q) = subst Behaves q agent-Behaves
        behaves (inr (inl q)) = subst Behaves q connect-Behaves
        behaves (inr (inr (inl q))) = subst Behaves q proxy-Behaves
        behaves (inr (inr (inr i'))) = absurd i'
