-- ===== src/Session/Failover.antt =====
-- Failover between the agents of a cluster: which dials succeed, and what they leave registered.
use kopilot.Base.{
  suc, ◌≡◌, refl, ◌∙◌, sym, ap, String, List, [], ◌∷◌, ◌++◌, Bool, true, false, arith, keep, any,
  lookup-insert, eq_iff, ◌==◌, is_ok-ok, any-append_last, any-get_elem?, any-remove_at,
  keep-remove_at, err, ok, is_ok, Result, Outcome, done, if◌then◌else◌,
}
use text.Mathlib.TextPositions.{eq_refl}
use kopilot.Api.{NamespacedName}
use kopilot.Session.{
  Network, SessionManager, Dialled, sessions, no_session, dial_cluster, add_cluster_session,
  IntnInRange,
}
use kopilot.Session.Loop.{Rule, dial_induction}
use kopilot.Session.Dialling.{sessions-store}

module _ (n : Network) where
  open n use {World, Session, Conn, intn, open_conn, close, key_string}

  -- The network does not change its mind: whether a session accepts a stream is settled.
  abbrev pub IsSteady : (Session → Bool) → Type 0
  IsSteady alive = (s : Session) (w : World) → is_ok (open_conn s w).0 ≡ alive s

  module _ (in_range : IntnInRange n) (alive : Session → Bool) (steady : IsSteady alive)
      (id : String) where
    FailsOver : List Session → SessionManager n → World → Outcome (Dialled n) → Type 0
    FailsOver ss m w o =
        sessions n m id ≡ ss
        → (d : Dialled n) × (o ≡ done d)
          × (is_ok d.0 ≡ any alive ss)
          × (keep alive (sessions n d.1 id) ≡ keep alive ss)

    Rule-FailsOver : Rule n id FailsOver
    unfolding FailsOver
    Rule-FailsOver = record {
      empty =
          λ m w none_left. ((err (no_session n id), m, w), refl, refl, ap (keep alive) none_left);
      opened = λ ss m w i s conn at e same. (
        (ok conn, m, _),
        refl,
        sym (any-get_elem? alive ss i s at (sym (steady s _) ∙ ap is_ok e)),
        ap (keep alive) same,
      );
      failed = λ ss m w i s e o at failed rest same.
          let dead : alive s ≡ false = sym (steady s _) ∙ ap is_ok failed in
          let (d, eq, answer, kept) = rest (sessions-store n m id _) in
          (
            d,
            eq,
            answer ∙ any-remove_at alive ss i s at dead,
            kept ∙ keep-remove_at alive ss i s at dead,
          );
    }

  -- With a steady network, and a `rand.Intn` that keeps to its range, `DialCluster` returns, and
  -- gets a connection exactly if some registered session of the cluster is alive; the live sessions
  -- stay registered, in their order.
  pub dial_cluster-FailsOver :
      (in_range : IntnInRange n) (alive : Session → Bool) (steady : IsSteady alive)
      (key : NamespacedName) (m : SessionManager n) (w : World)
      → (d : Dialled n) × (dial_cluster n key m w ≡ done d)
        × (is_ok d.0 ≡ any alive (sessions n m (key_string key)))
        × (keep alive (sessions n d.1 (key_string key))
            ≡ keep alive (sessions n m (key_string key)))
  unfolding dial_cluster FailsOver
  dial_cluster-FailsOver in_range alive steady key m w =
      let id = key_string key in
      dial_induction n in_range id (FailsOver in_range alive steady id)
        (Rule-FailsOver in_range alive steady id) (suc _) (sessions n m id) m w (omega arith) refl

  -- A new session is listed last for its cluster; the lists of other clusters stay.
  pub sessions-add_cluster_session :
      (key : NamespacedName) (s : Session) (m : SessionManager n) (j : String)
      → sessions n (add_cluster_session n key s m) j
        ≡ (if key_string key == j then sessions n m j ++ s ∷ [] else sessions n m j)
  unfolding add_cluster_session
  sessions-add_cluster_session key s m j = ground (
    arith,
    lookup-insert (key_string key) j (sessions n m (key_string key) ++ s ∷ []) m.session_lists,
    eq_iff (key_string key) j,
  )

  -- After a session that is alive was added for a cluster, a dial for the cluster gets a
  -- connection, with a steady network and a `rand.Intn` that keeps to its range.
  dial_cluster-add_cluster_session :
      (in_range : IntnInRange n) (alive : Session → Bool) (steady : IsSteady alive)
      (key : NamespacedName) (s : Session) (m : SessionManager n) (w : World)
      → alive s ≡ true
      → (conn : Conn) × (m' : SessionManager n) × (w' : World) × (dial_cluster n key
            (add_cluster_session n key s m)
            w
          ≡ done (ok conn, m', w'))
  dial_cluster-add_cluster_session in_range alive steady key s m w on =
      let m₁ = add_cluster_session n key s m in
      let ((r, m', w'), eq, answer, _) = dial_cluster-FailsOver in_range alive steady key m₁ w in
      let (conn, e) = is_ok-ok r (
        answer
        ∙ ap (any alive) (
            sessions-add_cluster_session key s m (key_string key) ∙ (rw (eq_refl (key_string key))))
        ∙ any-append_last alive (sessions n m (key_string key)) s on) in
      (conn, m', w', eq ∙ ap (λ (q : Result Conn). done (q, m', w')) e)
