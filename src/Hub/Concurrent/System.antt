-- ===== src/Hub/Concurrent/System.antt =====
-- A hub whose requests run at once: the calls of their routines in any interleaving, over one
-- session manager.
use kopilot.Base.{ℕ, nat_eq, ◌≡◌, List, [], ◌∷◌, In, if◌then◌else◌, Result, ok, done}
use kopilot.Api.{Cluster, NamespacedName}
use kopilot.Session.{
  SessionManager, Dialled, new_session_manager, add_cluster_session, dial_cluster,
}
use kopilot.Http.{Request, Writer, query_get}
use kopilot.Hub.{Env}
use kopilot.Hub.Config.{Config}
use kopilot.Hub.Concurrent.{Routine, answers, asks, adds, dials}
use kopilot.Hub.Concurrent.Serving.{Service}
use kopilot.Hub.Concurrent.Whole.{Handles}

module _ (e : Env) (c : Config) where
  open e use {World, Session, Conn, get_cluster}

  -- The goroutine of a request: the writer that it was given, what is left of its routine, and the worlds that its calls so far
  -- have met, latest first.
  pub record Goroutine : Type 0 where
    pub request : Request
    pub writer : Writer
    pub met : List World
    pub rest : Routine e Writer

  -- A session that was registered, with the request whose goroutine did so, as far as it was then.
  pub record Registration : Type 0 where
    pub key : NamespacedName
    pub session : Session
    pub request : Request
    pub met : List World

  pub record System : Type 0 where
    pub manager : SessionManager e.net
    pub world : World
    pub goroutines : ℕ → Goroutine
    pub log : List Registration

  abbrev pub set : (ℕ → Goroutine) → ℕ → Goroutine → ℕ → Goroutine
  set goroutines i g j = if nat_eq i j then g else goroutines j

  -- A request that arrives, a call of any goroutine, or a change of the world by itself.
  pub data Step (s : System) : System → Type 0 where
    accepts :
        (i : ℕ) (service : Service e) (w w' : Writer) (r : Request)
        → Handles e c service
        → (s.goroutines i).rest ≡ answers w'
        → Step s (record s {
          goroutines =
              set s.goroutines i (record { request = r; writer = w; met = []; rest = service w r });
        })
    asking :
        (i : ℕ) (move : World → World) (k : World → Routine e Writer)
        → (s.goroutines i).rest ≡ asks move k
        → Step s (record s {
          world = move s.world;
          goroutines =
              set s.goroutines i (record (s.goroutines i) {
                met = s.world ∷ (s.goroutines i).met;
                rest = k s.world;
              });
        })
    adding :
        (i : ℕ) (key : NamespacedName) (sess : Session) (k : Routine e Writer)
        → (s.goroutines i).rest ≡ adds key sess k
        → Step s (record s {
          manager = add_cluster_session e.net key sess s.manager;
          goroutines = set s.goroutines i (record (s.goroutines i) { rest = k });
          log =
              record {
                key = key;
                session = sess;
                request = (s.goroutines i).request;
                met = (s.goroutines i).met;
              }
              ∷ s.log;
        })
    dialling :
        (i : ℕ) (key : NamespacedName) (k : Result Conn → Routine e Writer) (d : Dialled e.net)
        → (s.goroutines i).rest ≡ dials key k
        → dial_cluster e.net key s.manager s.world ≡ done d
        → Step s (record s {
          manager = d.1;
          world = d.2;
          goroutines = set s.goroutines i (record (s.goroutines i) { rest = k d.0 });
        })
    moving : (v : World) → Step s (record s { world = v })

  -- A hub that has just started: every goroutine is idle.
  abbrev pub idle_hub : Request → Writer → World → System
  idle_hub r w v = record {
    manager = new_session_manager e.net;
    world = v;
    goroutines = λ i. record { request = r; writer = w; met = []; rest = answers w };
    log = [];
  }

  pub data Reach : System → Type 0 where
    starts : (r : Request) (w : Writer) (v : World) → Reach (idle_hub r w v)
    steps : {s t : System} → Reach s → Step s t → Reach t

  -- In one of the worlds met, the cluster of the key was looked up, and its token is the request's.
  abbrev pub Shows : NamespacedName → Request → List World → Type 0
  Shows key r met =
      (v : World) × (cluster : Cluster e.kube) × In v met
      × ((get_cluster key.namespace key.name v).0 ≡ ok cluster)
      × (query_get r "token" ≡ cluster.token)
