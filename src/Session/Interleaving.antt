-- ===== src/Session/Interleaving.antt =====
-- pkg/hub/cluster/session_manager.go under concurrent callers, a statement at a time: the
-- goroutines of the handlers share the mutex and the map, and the network moves between any two
-- statements.
pub mod Serializing
pub mod Granting
pub mod Releasing
use kopilot.Base.{
  ℕ, ◌≡◌, String, List, [], ◌∷◌, ◌++◌, Option, none, some, if◌then◌else◌, nat_eq, length, get_elem?,
  remove_at, Error, Result, ok, err,
}
use kopilot.Api.{NamespacedName}
use kopilot.Session.{
  Network, SessionManager, new_session_manager, sessions, store, add_cluster_session, no_session,
}

module _ (n : Network) where
  open n use {World, Session, Conn, intn, open_conn, close, key_string}

  pub data Call : Type 0 where
    add : NamespacedName → Session → Call
    dial : NamespacedName → Call

  pub data Reply : Type 0 where
    added : Reply
    dialled : Result Conn → Reply

  -- Where a goroutine stands that holds the mutex, with its local variables: before the read of the
  -- map, the write of it, the test of the loop, `Open`, `Close`, the cut of the slice, and
  -- `Unlock`.
  pub data Body : Type 0 where
    add_reads : NamespacedName → Session → Body
    add_writes : NamespacedName → Session → List Session → Body
    dial_reads : NamespacedName → Body
    dial_tests : NamespacedName → List Session → Body
    dial_opens : NamespacedName → List Session → ℕ → Body
    dial_closes dial_cuts : NamespacedName → List Session → ℕ → Session → Body
    returns : Call → Reply → Body

  pub data Pc : Type 0 where
    idle : Pc
    waits : Call → Pc
    holds : Body → Pc

  abbrev pub enter : Call → Body
  enter (add key s) = add_reads key s
  enter (dial key) = dial_reads key

  -- A step of one goroutine: where it comes to, the map and the world.
  abbrev pub Moved : Type 0
  Moved = Body × SessionManager n × World

  abbrev opened :
      NamespacedName → List Session → ℕ → Session → SessionManager n → Result Conn × World → Moved
  opened key ss i s m (ok conn, w) = (returns (dial key) (dialled (ok conn)), m, w)
  opened key ss i s m (err er, w) = (dial_closes key ss i s, m, w)

  abbrev tested : NamespacedName → List Session → SessionManager n → World → Moved
  tested key [] m w = (returns (dial key) (dialled (err (no_session n (key_string key)))), m, w)
  tested key (s ∷ rest) m w =
      let (i, w') = intn (length (s ∷ rest)) w in (dial_opens key (s ∷ rest) i, m, w')

  -- One statement. There is none where an index is out of range, nor behind the last.
  unfoldable pub advance : Body → SessionManager n → World → Option Moved
  advance (add_reads key s) m w =
      some (add_writes key s (sessions n m (key_string key) ++ s ∷ []), m, w)
  advance (add_writes key s ss) m w =
      some (returns (add key s) added, store n m (key_string key) ss, w)
  advance (dial_reads key) m w = some (dial_tests key (sessions n m (key_string key)), m, w)
  advance (dial_tests key ss) m w = some (tested key ss m w)
  advance (dial_opens key ss i) m w = elim (get_elem? ss i) [
    | none ↦ none
    | some s ↦ some (opened key ss i s m (open_conn s w))
  ]
  advance (dial_closes key ss i s) m w = some (dial_cuts key ss i s, m, close s w)
  advance (dial_cuts key ss i s) m w =
      let ss' = remove_at ss i in some (dial_tests key ss', store n m (key_string key) ss', w)
  advance (returns c r) m w = none

  -- A call that has returned, with the goroutine that made it.
  pub record Event : Type 0 where
    pub thread : ℕ
    pub call : Call
    pub reply : Reply

  pub record System : Type 0 where
    pub owner : Option ℕ
    pub manager : SessionManager n
    pub world : World
    pub threads : ℕ → Pc
    pub log : List Event

  abbrev pub update : (ℕ → Pc) → ℕ → Pc → ℕ → Pc
  update threads i pc j = if nat_eq i j then pc else threads j

  abbrev pub init : World → System
  init w = record {
    owner = none;
    manager = new_session_manager n;
    world = w;
    threads = λ i. idle;
    log = [];
  }

  -- One step of any goroutine, or of the network.
  pub data Step (s : System) : System → Type 0 where
    calls :
        (i : ℕ) (c : Call)
        → s.threads i ≡ idle
        → Step s (record s { threads = update s.threads i (waits c) })
    locks :
        (i : ℕ) (c : Call)
        → s.threads i ≡ waits c
        → s.owner ≡ none
        → Step s (record s { owner = some i; threads = update s.threads i (holds (enter c)) })
    runs :
        (i : ℕ) (b b' : Body) (m : SessionManager n) (w : World)
        → s.threads i ≡ holds b
        → advance b s.manager s.world ≡ some (b', m, w)
        → Step s (record s { manager = m; world = w; threads = update s.threads i (holds b') })
    unlocks :
        (i : ℕ) (c : Call) (r : Reply)
        → s.threads i ≡ holds (returns c r)
        → Step s (record s {
          owner = none;
          threads = update s.threads i idle;
          log = record { thread = i; call = c; reply = r } ∷ s.log;
        })
    moves : (w : World) → Step s (record s { world = w })

  pub data Reach : System → Type 0 where
    starts : (w : World) → Reach (init w)
    steps : {s t : System} → Reach s → Step s t → Reach t

  -- What a dial may do at one blow: it drops sessions that refuse a stream, in any number and each
  -- at any time, and ends with one that grants a stream or with none left.
  pub data DialRun (id : String)
      : List Session → SessionManager n → Result Conn → SessionManager n → Type 0 where
    none_left : (m : SessionManager n) → DialRun id [] m (err (no_session n id)) m
    granted :
        (ss : List Session) (m : SessionManager n) (i : ℕ) (s : Session) (v : World) (conn : Conn)
        → get_elem? ss i ≡ some s
        → (open_conn s v).0 ≡ ok conn
        → DialRun id ss m (ok conn) m
    dropped :
        (ss : List Session) (m m' : SessionManager n) (i : ℕ) (s : Session) (v : World) (er : Error)
        (r : Result Conn)
        → get_elem? ss i ≡ some s
        → (open_conn s v).0 ≡ err er
        → DialRun id (remove_at ss i) (store n m id (remove_at ss i)) r m'
        → DialRun id ss m r m'

  -- A call as one atomic step on the map.
  pub data Performs (m : SessionManager n) : Call → Reply → SessionManager n → Type 0 where
    adds :
        (key : NamespacedName) (s : Session)
        → Performs m (add key s) added (add_cluster_session n key s m)
    dials :
        (key : NamespacedName) (r : Result Conn) (m' : SessionManager n)
        → DialRun (key_string key) (sessions n m (key_string key)) m r m'
        → Performs m (dial key) (dialled r) m'

  -- The calls of a log, latest first, one after the other from an empty map.
  pub data Serial : List Event → SessionManager n → Type 0 where
    nothing : Serial [] (new_session_manager n)
    then_performs :
        (log : List Event) (m m' : SessionManager n) (i : ℕ) (c : Call) (r : Reply)
        → Serial log m
        → Performs m c r m'
        → Serial (record { thread = i; call = c; reply = r } ∷ log) m'
