-- ===== src/Session/Dialling.antt =====
-- What `DialCluster` and `AddClusterSession` do to the registry, whatever sessions fail.
use mathlib.Core.List.{Perm}
use mathlib.Core.List.Perm
use kopilot.Base.{
  ℕ, suc, ap, ◌≡◌, refl, String, List, [], ◌∷◌, ◌++◌, Bool, true, false, some, arith, lookup-insert,
  text_eq-false, eq_iff, length, get_elem?, remove_at, All, perm-remove_at, err, ok, is_ok, Outcome,
  done,
}
use kopilot.Api.{NamespacedName}
use kopilot.Session.{
  Network, SessionManager, Dialled, sessions, store, no_session, dial_cluster, IntnInRange,
}
use kopilot.Session.Loop.{Rule, dial_induction}

module _ (n : Network) where
  open n use {World, Session, Conn, intn, open_conn, close, key_string}

  pub sessions-store :
      (m : SessionManager n) (id : String) (ss : List Session)
      → sessions n (store n m id ss) id ≡ ss
  sessions-store m id ss = ground (arith, lookup-insert id id ss m.session_lists, eq_iff id id)

  pub sessions-store_other :
      (m : SessionManager n) (id j : String) (ss : List Session)
      → ¬ (id ≡ j)
      → sessions n (store n m id ss) j ≡ sessions n m j
  sessions-store_other m id j ss h =
      ground (arith, lookup-insert id j ss m.session_lists, text_eq-false id j h)

  -- Documented of yamux: `Close` closes the session, and a closed session stays closed.
  pub record Closing : Type 0 where
    pub closed : Session → World → Bool
    pub closed-close : (s : Session) (w : World) → closed s (close s w) ≡ true
    pub closed-close_other :
        (s t : Session) (w : World) → closed s w ≡ true → closed s (close t w) ≡ true
    pub closed-open_conn :
        (s t : Session) (w : World) → closed s w ≡ true → closed s (open_conn t w).1 ≡ true
    pub closed-intn :
        (s : Session) (k : ℕ) (w : World) → closed s w ≡ true → closed s (intn k w).1 ≡ true

  -- Where only the answer of a dial is asked, any reading of `closed` serves.
  pub trivial_closing : Closing
  trivial_closing = record {
    closed = λ _ _. true;
    closed-close = λ _ _. refl;
    closed-close_other = λ _ _ _ h. h;
    closed-open_conn = λ _ _ _ h. h;
    closed-intn = λ _ _ _ h. h;
  }

  -- The connection came from a session that is still listed; or there is none left.
  abbrev pub Answered : String → Dialled n → Type 0
  Answered id (ok conn, m, w) =
      (i : ℕ) × (s : Session) × (v : World) × (get_elem? (sessions n m id) i ≡ some s)
      × ((open_conn s v).0 ≡ ok conn)
  Answered id (err e, m, w) = (e ≡ no_session n id) × (sessions n m id ≡ [])

  -- A session that was dropped: it refused a stream, and it is closed at the end.
  abbrev pub Dropped : Closing → World → Session → Type 0
  Dropped c w s = (v : World) × (is_ok (open_conn s v).0 ≡ false) × (c.closed s w ≡ true)

  pub record Contract (c : Closing) (id : String) (ss : List Session) (d : Dialled n) : Type 0 where
    pub answered : Answered id d
    pub dropped : List Session
    pub kept : Perm ss (dropped ++ sessions n d.1 id)
    pub refused : All (Dropped c d.2) dropped

  module _ (in_range : IntnInRange n) (c : Closing) (id : String) where
    Settles : List Session → SessionManager n → World → Outcome (Dialled n) → Type 0
    Settles ss m w o =
        sessions n m id ≡ ss
        → (d : Dialled n) × (o ≡ done d)
          × Contract c id ss d
          × ((t : Session) → c.closed t w ≡ true → c.closed t d.2 ≡ true)

    Rule-Settles : Rule n id Settles
    unfolding Settles
    Rule-Settles = record {
      empty = λ m w none_left. (
        (err (no_session n id), m, w),
        refl,
        record {
          answered = (refl, none_left);
          dropped = [];
          kept = rw none_left (Perm.refl _);
          refused = tt;
        },
        λ t h. h,
      );
      opened = λ ss m w i s conn at e same. (
        (ok conn, m, _),
        refl,
        record {
          answered = (i, s, _, rw same at, e);
          dropped = [];
          kept = rw same (Perm.refl _);
          refused = tt;
        },
        λ t h. c.closed-open_conn t s _ (c.closed-intn t _ w h),
      );
      failed = λ ss m w i s e o at failed rest same.
          let (d, eq, k, stays) = rest (sessions-store m id (remove_at ss i)) in
          (
            d,
            eq,
            record {
              answered = k.answered;
              dropped = s ∷ k.dropped;
              kept = Perm.trans (perm-remove_at ss i s at) (Perm.cons s k.kept);
              refused = ((_, ap is_ok failed, stays s (c.closed-close s _)), k.refused);
            },
            λ t h.
                stays t
                  (c.closed-close_other t s _ (c.closed-open_conn t s _ (c.closed-intn t _ w h))),
          );
    }

  -- `DialCluster` returns, if `rand.Intn` keeps to its range. A connection comes from a session
  -- that is still listed for the cluster; an error is the one for no session, and none is listed.
  -- What was listed is, up to order, what is still listed and what was dropped; each session
  -- dropped had refused a stream, and is closed in the end.
  pub dial_cluster-Contract :
      (in_range : IntnInRange n) (c : Closing) (key : NamespacedName) (m : SessionManager n)
      (w : World)
      → (d : Dialled n) × (dial_cluster n key m w ≡ done d)
        × Contract c (key_string key) (sessions n m (key_string key)) d
  unfolding dial_cluster Settles
  dial_cluster-Contract in_range c key m w =
      let id = key_string key in
      let ss = sessions n m id in
      let (d, eq, k, _) =
        dial_induction n in_range id (Settles in_range c id) (Rule-Settles in_range c id)
          (suc (length ss)) ss m w (omega arith) refl in
      (d, eq, k)
