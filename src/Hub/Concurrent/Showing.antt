-- ===== src/Hub/Concurrent/Showing.antt =====
-- What a routine may register, along every course of its calls.
use kopilot.Base.{
  ◌≡◌, refl, inl, inr, String, List, [], ◌∷◌, Result, ok, err, Bool-cases, ◌==◌, eq_iff,
}
use kopilot.Api.{Cluster, NamespacedName}
use kopilot.Http.{Request, Writer, query_get}
use kopilot.Hub.{Env}
use kopilot.Hub.Config.{Config}
use kopilot.Hub.Concurrent.{Routine, answers, panics, starves, asks, adds, dials, ◌>>=◌}
use kopilot.Hub.Concurrent.Serving.{Service, found_cluster, looks_up, checks_token}
use kopilot.Hub.Concurrent.Handlers.{registers, multiplexes, connect_rest, connect_routine}
use kopilot.Hub.Concurrent.Whole.{Handles, fetches, connects, proxies, relays}
use kopilot.Hub.Concurrent.System.{Shows}
use kopilot.Hub.Concurrent.Obeying.{Obeys, agent-Obeys, proxy-Obeys, peer-Obeys}

module _ (e : Env) (c : Config) where
  open e use {World}

  -- Whatever its calls meet, a routine adds a session only for a cluster whose token its request
  -- has shown by then.
  unfoldable pub AddsShown : Request → List World → Routine e Writer → Type 0
  AddsShown r met (answers a) = Unit
  AddsShown r met panics = Unit
  AddsShown r met starves = Unit
  AddsShown r met (asks move k) = (v : World) → AddsShown r (v ∷ met) (k v)
  AddsShown r met (adds key sess k) = Shows e c key r met × AddsShown r met k
  AddsShown r met (dials key k) = (d : Result e.Conn) → AddsShown r met (k d)

  -- A routine that adds none, whether it panics or not.
  abbrev AddsNone : Routine e Writer → Type 0
  AddsNone = Obeys e Unit ⊥

  AddsNone-AddsShown :
      (r : Request) (met : List World) (m : Routine e Writer) → AddsNone m → AddsShown r met m
  unfolding Obeys AddsShown
  AddsNone-AddsShown r met (answers a) h = tt
  AddsNone-AddsShown r met panics h = tt
  AddsNone-AddsShown r met starves h = tt
  AddsNone-AddsShown r met (asks move k) h = λ v. AddsNone-AddsShown r (v ∷ met) (k v) (h v)
  AddsNone-AddsShown r met (adds key sess k) h = absurd h.0
  AddsNone-AddsShown r met (dials key k) h = λ d. AddsNone-AddsShown r met (k d) (h d)

  connect_rest-AddsShown :
      (key : NamespacedName) (token : String) (w : Writer) (r : Request) (met : List World)
      → ((v₁ v₂ : World) → Shows e c key r (v₂ ∷ v₁ ∷ met))
      → AddsShown r met (connect_rest e c key token w r)
  unfolding connect_rest AddsShown ◌>>=◌ multiplexes registers
  connect_rest-AddsShown key token w r met shown v₁ = go (e.upgrade w r v₁).0
    where
      go₂ :
          (w₁ : Writer) (v₂ : World) (served : Result e.Session)
          → AddsShown r (v₂ ∷ v₁ ∷ met) (registers e c key w₁ served)
      go₂ w₁ v₂ (err er) = tt
      go₂ w₁ v₂ (ok sess) = (shown v₁ v₂, tt)

      go :
          (upgraded : Result e.WsConn × Writer)
          → AddsShown r (v₁ ∷ met) (multiplexes e c key upgraded)
      go (err er, w₁) = tt
      go (ok conn, w₁) = λ v₂. go₂ w₁ v₂ (e.yamux_server conn v₂).0

  connect-AddsShown :
      (key : NamespacedName) (w : Writer) (r : Request)
      → AddsShown r [] (connect_routine e c key w r)
  unfolding connect_routine looks_up ◌>>=◌ AddsShown checks_token
  connect-AddsShown key w r v = go (e.get_cluster key.namespace key.name v).0 refl
    where
      go :
          (got : Result (Cluster e.kube))
          → (e.get_cluster key.namespace key.name v).0 ≡ got
          → AddsShown r (v ∷ []) (found_cluster e (checks_token e (connect_rest e c key)) w r got)
      go (err er) q = tt
      go (ok cluster) q = elim (Bool-cases (query_get r "token" == cluster.token)) [
        | inl h ↦
            rw (h, checks_token)
              (connect_rest-AddsShown key (query_get r "token") w r (v ∷ []) (λ v₁ v₂. (
                v,
                cluster,
                inr (inr (inl refl)),
                q,
                (eq_iff (query_get r "token") cluster.token).0 h,
              )))
        | inr h ↦ rw (h, checks_token) tt
      ]

  -- Every handler's routine registers a session only after its request has shown the token of the
  -- session's cluster.
  pub Handles-AddsShown :
      {service : Service e}
      → Handles e c service
      → (w : Writer) (r : Request) → AddsShown r [] (service w r)
  Handles-AddsShown (fetches key) w r =
      AddsNone-AddsShown r [] _
        (agent-Obeys e Unit ⊥ c key (λ er q. tt) (λ tmpl image url er p q. tt) w r (λ text q. tt))
  Handles-AddsShown (connects key) w r = connect-AddsShown key w r
  Handles-AddsShown (proxies has_peers key sub) w r =
      AddsNone-AddsShown r [] _ (proxy-Obeys e Unit ⊥ c (λ er q. tt) has_peers key sub w r)
  Handles-AddsShown relays w r = AddsNone-AddsShown r [] _ (peer-Obeys e Unit ⊥ c (λ er q. tt) w r)
