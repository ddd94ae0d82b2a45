-- ===== src/Session/Loop.antt =====
-- The one rule by which facts about the loop of `DialCluster` are proved.
use kopilot.Base.{
  ℕ, zero, suc, ◌≡◌, String, List, [], ◌∷◌, some, ◌<◌, arith, length, get_elem?, remove_at,
  get_elem?-some, length-remove_at, Error, err, ok, Outcome, done, Result-cases, inl, inr,
}
use kopilot.Session.{Network, SessionManager, Dialled, store, no_session, dial, IntnInRange}

module _ (n : Network) where
  open n use {World, Session, Conn, intn, open_conn, close}

  -- What holds of a round that finds no session, of one that opens a connection, and is handed on
  -- by one whose session fails.
  pub record Rule {ℓ} (id : String)
      (Q : List Session → SessionManager n → World → Outcome (Dialled n) → Type ℓ) : Type ℓ where
    pub empty : (m : SessionManager n) (w : World) → Q [] m w (done (err (no_session n id), m, w))
    pub opened :
        (ss : List Session) (m : SessionManager n) (w : World) (i : ℕ) (s : Session) (conn : Conn)
        → get_elem? ss i ≡ some s
        → (open_conn s (intn (length ss) w).1).0 ≡ ok conn
        → Q ss m w (done (ok conn, m, (open_conn s (intn (length ss) w).1).1))
    pub failed :
        (ss : List Session) (m : SessionManager n) (w : World) (i : ℕ) (s : Session) (e : Error)
        (o : Outcome (Dialled n))
        → get_elem? ss i ≡ some s
        → (open_conn s (intn (length ss) w).1).0 ≡ err e
        → Q
            (remove_at ss i)
            (store n m id (remove_at ss i))
            (close s (open_conn s (intn (length ss) w).1).1)
            o
        → Q ss m w o

  module _ {ℓ} (in_range : IntnInRange n) (id : String)
      (Q : List Session → SessionManager n → World → Outcome (Dialled n) → Type ℓ)
      (rule : Rule id Q) where
    -- Holds for a loop whose fuel exceeds the number of sessions.
    pub dial_induction :
        (fuel : ℕ) (ss : List Session) (m : SessionManager n) (w : World)
        → length ss < fuel
        → Q ss m w (dial n fuel id ss m w)
    unfolding dial
    dial_induction zero ss m w h = absurd (omega arith)
    dial_induction (suc fuel) [] m w h = rule.empty m w
    dial_induction (suc fuel) (s₀ ∷ rest) m w h =
        let ss = s₀ ∷ rest in
        let idx = (intn (length ss) w).0 in
        let w₁ = (intn (length ss) w).1 in
        let (s, at) = get_elem?-some ss idx (in_range (length ss) w (omega arith)) in
        let next =
          dial_induction fuel (remove_at ss idx) (store n m id (remove_at ss idx))
            (close s (open_conn s w₁).1) (omega (arith, length-remove_at ss idx s at)) in
        elim (Result-cases (open_conn s w₁).0) [
          | inl (conn, e) ↦ rw (at, e, dial) (rule.opened ss m w idx s conn at e)
          | inr (er, e) ↦ rw (at, e, dial) (rule.failed ss m w idx s er _ at e next)
        ]
