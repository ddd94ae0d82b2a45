-- ===== src/Hub/System.antt =====
-- A hub that serves requests: the handlers of its subresources and of its server for peers, in any
-- order, over one registry. The registry's mutex makes the calls of concurrent handlers take turns;
-- here whole handlers do.
use kopilot.Base.{
  ◌≡◌, refl, sym, ap, subst, String, List, [], ◌∷◌, Option, inl, inr, ok, done, done-injective, All,
  All-map, ◌∙◌, SlashFree,
}
use kopilot.Api.{NamespacedName}
use kopilot.Session.{
  SessionManager, new_session_manager, add_cluster_session, dial_cluster, IntnInRange, Dialled,
}
use kopilot.Session.Isolation as Registry
use kopilot.Session.Isolation.{IsJoined, IsRegistered, dial_cluster-IsRegistered}
use kopilot.Http.{Url, Request, Writer}
use kopilot.Hub.{Env, State}
use kopilot.Hub.Config.{Config}
use kopilot.Hub.Subresources.{PeerManager, agent_handler, connect_handler, proxy_handler}
use kopilot.Hub.Subresources.Access.{IsAuthentic, connect_handler-IsAuthentic, agent_handler-keeps}
use kopilot.Hub.Proxying.{IsUsed, DialsOnce, proxy_handler-DialsOnce}

module _ (e : Env) (c : Config) where
  open e use {World, Session, Conn, open_conn, url_parse}

  -- One request, or a change of the world that no request of the hub makes. The namespace of a
  -- key comes from one segment of a request's path.
  pub data Step (s : State e) : State e → Type 0 where
    fetches :
        (key : NamespacedName) (w w' : Writer) (r : Request) (t : State e)
        → agent_handler e c key w r s ≡ done (w', t)
        → Step s t
    connects :
        (key : NamespacedName) (w w' : Writer) (r : Request) (t : State e)
        → SlashFree key.namespace
        → connect_handler e c key w r s ≡ done (w', t)
        → Step s t
    proxies :
        (key : NamespacedName) (pm : Option (PeerManager e)) (sub : String) (w w' : Writer)
        (r : Request) (t : State e)
        → IsUsed e c key pm
        → proxy_handler e c pm key sub w r s ≡ done (w', t)
        → Step s t
    moves : (v : World) → Step s (s.0, v)

  pub data Reach : State e → Type 0 where
    starts : (v : World) → Reach (new_session_manager e.net, v)
    steps : {s t : State e} → Reach s → Step s t → Reach t

  -- The session was registered for the key by a request that showed the cluster's token.
  pub record WasPresented (key : NamespacedName) (s : Session) : Type 0 where
    pub writer : Writer
    pub request : Request
    pub before : State e
    pub after : Writer × State e
    pub authentic : IsAuthentic e c key request before.1
    pub answered : connect_handler e c key writer request before ≡ done after
    pub registered : after.1.0 ≡ add_cluster_session e.net key s before.0

  abbrev Logged : NamespacedName × Session → Type 0
  Logged (key, s) = SlashFree key.namespace × WasPresented key s

  -- The registry's own history behind a state of the hub.
  record History (s : State e) : Type 0 where
    log : List (NamespacedName × Session)
    reach : Registry.Reach e.net (record { manager = s.0; world = s.1; log = log })
    good : All Logged log

  abbrev AtRegistry : SessionManager e.net → World → List (NamespacedName × Session) → Type 0
  AtRegistry m v log = Registry.Reach e.net (record { manager = m; world = v; log = log })

  same_registry : (s t : State e) → t.0 ≡ s.0 → History s → History t
  same_registry s t same h = record {
    log = h.log;
    reach =
        subst (λ m. AtRegistry m t.1 h.log) (sym same)
          (Registry.steps h.reach (Registry.moves t.1));
    good = h.good;
  }

  added :
      (s t : State e) (key : NamespacedName) (sess : Session)
      → Logged (key, sess)
      → t.0 ≡ add_cluster_session e.net key sess s.0
      → History s
      → History t
  added s t key sess good eq h = record {
    log = (key, sess) ∷ h.log;
    reach =
        subst (λ m. AtRegistry m t.1 ((key, sess) ∷ h.log)) (sym eq)
          (Registry.steps (Registry.steps h.reach (Registry.adds key sess)) (Registry.moves t.1));
    good = (good, h.good);
  }

  dialled :
      (s t : State e) (key : NamespacedName) (v : World) (d : Dialled e.net)
      → dial_cluster e.net key s.0 v ≡ done d
      → t.0 ≡ d.1
      → History s
      → History t
  dialled s t key v d eq same h = record {
    log = h.log;
    reach =
        subst (λ m. AtRegistry m t.1 h.log) (sym same)
          (Registry.steps
            (Registry.steps (Registry.steps h.reach (Registry.moves v)) (Registry.dials key d eq))
            (Registry.moves t.1));
    good = h.good;
  }

  module _ (in_range : IntnInRange e.net) (target : Url)
      (parses : url_parse "http://127.0.0.1" ≡ ok target) where
    Step-History : {s t : State e} → Step s t → History s → History t
    Step-History {s} (fetches key w w' r t eq) h =
        same_registry s t (agent_handler-keeps e c key w w' r s.0 t.0 s.1 t.1 eq) h
    Step-History {s} (connects key w w' r t free eq) h =
        elim (connect_handler-IsAuthentic e c key w w' r s.0 t.0 s.1 t.1 eq) [
          | inl same ↦ same_registry s t same h
          | inr (sess, authentic, registered) ↦
              added s t key sess
                (
                  free,
                  record {
                    writer = w;
                    request = r;
                    before = s;
                    after = (w', t);
                    authentic = authentic;
                    answered = eq;
                    registered = registered;
                  },
                )
                registered h
        ]
    Step-History {s} (proxies key pm sub w w' r t used eq) h =
        let (w'', t', eq', once) =
          proxy_handler-DialsOnce e c key in_range target parses pm used sub w r s.0 s.1 in
        let same : t' ≡ t =
          ap (λ (x : Writer × State e). x.1) (done-injective (w'', t') (w', t) (sym eq' ∙ eq)) in
        elim (subst (λ (x : State e). DialsOnce e c key s.0 x.0) same once) [
          | inl kept ↦ same_registry s t kept h
          | inr (v, d, dial, after) ↦ dialled s t key v d dial after h
        ]
    Step-History {s} (moves v) h = same_registry s (s.0, v) refl h

    Reach-History : {s : State e} → Reach s → History s
    Reach-History (starts v) = record { log = []; reach = Registry.starts v; good = tt }
    Reach-History (steps r st) = Step-History st (Reach-History r)

    find_presented :
        (key : NamespacedName) (sess : Session) (log : List (NamespacedName × Session))
        → All Logged log
        → IsRegistered e.net key sess log
        → WasPresented key sess
    find_presented key sess [] good i = absurd i
    find_presented key sess ((k, t) ∷ log) (good, _) (inl (same_key, same)) =
        subst (λ x. WasPresented x sess) same_key (subst (WasPresented k) same good.1)
    find_presented key sess ((k, t) ∷ log) (_, goods) (inr i) = find_presented key sess log goods i

    -- In every state that a hub reaches by serving requests, the connection that a dial for a
    -- cluster gets was opened on a session that a connect request registered for this very cluster
    -- and that request showed the cluster's token. Assumed: `rand.Intn` keeps to its range, the URL
    -- of the local target parses, keys are written namespace, slash, name, and namespaces have no
    -- slash.
    pub dial_cluster-WasPresented :
        (joined : IsJoined e.net) {s : State e} (r : Reach s) (key : NamespacedName) (conn : Conn)
        (m : SessionManager e.net) (v : World)
        → SlashFree key.namespace
        → dial_cluster e.net key s.0 s.1 ≡ done (ok conn, m, v)
        → (sess : Session) × (u : World) × ((open_conn sess u).0 ≡ ok conn) × WasPresented key sess
    dial_cluster-WasPresented joined r key conn m v free eq =
        let h = Reach-History r in
        let (sess, u, registered, opened) =
          dial_cluster-IsRegistered e.net in_range joined h.reach key conn m v free
            (All-map h.log (λ b good. good.0) h.good) eq in
        (sess, u, opened, find_presented key sess h.log h.good registered)
