-- ===== src/Server.antt =====
-- The life of an HTTP server in pkg/hub/peer/server.go (`StartServer`) and
-- cmd/kopilot-agent/main.go (`main`): one goroutine serves, another waits for the stop (the
-- context's end, or a signal), calls `Shutdown` and closes the channel `idleConnsClosed`, for which
-- the first one waits in the end.
pub mod Shutdown
use kopilot.Base.{
  ◌≡◌, ◌≢◌, Bool, true, false, Option, none, some, Error, ErrorKind, server_closed, ℕ,
}

-- Where the serving goroutine stands: in `Serve`; behind it, with what it returned; at the channel;
-- returned, with its error; or out of the process, with its exit status.
pub data Phase : Type 0 where
  serving waiting : Phase
  served : Option Error → Phase
  returned : Option Error → Phase
  exited : ℕ → Phase

-- Where `server.Shutdown` stands, in the other goroutine.
pub data Draining : Type 0 where
  idle draining drained : Draining

-- The two ways on from `Serve`: what is done with its result, and behind the channel.
pub record Program : Type 0 where
  pub check : Option Error → Phase
  pub woken : Phase

abbrev is_closed : ErrorKind → Bool
is_closed server_closed = true
is_closed _ = false

-- `if err := server.ListenAndServeTLS("", ""); err != nil && err != http.ErrServerClosed { return
-- err }`
abbrev check_closed : Bool → Error → Phase
check_closed true er = waiting
check_closed false er = returned (some er)

unfoldable pub start_server : Program
start_server = record {
  check = λ res. elim res [ none ↦ waiting | some er ↦ check_closed (is_closed er.kind) er ];
  woken = returned none;
}

-- `if err := server.Serve(sess); err != nil { log.Fatalf(…) }`, which ends the process with 1.
unfoldable pub agent_main : Program
agent_main = record {
  check = λ res. elim res [ none ↦ waiting | some er ↦ exited 1 ];
  woken = exited 0;
}

pub record Process : Type 0 where
  pub phase : Phase
  pub stopped : Bool
  pub shutdown : Draining
  pub idle_conns_closed : Bool

abbrev pub started : Process
started = record { phase = serving; stopped = false; shutdown = idle; idle_conns_closed = false }

-- The two goroutines and net/http, in any order. Documented of net/http: `Serve` returns an error
-- always, and it is `ErrServerClosed` once `Shutdown` was called; else it is another.
pub data Step (g : Program) (p : Process) : Process → Type 0 where
  stop : Step g p (record p { stopped = true })
  shuts_down : p.stopped ≡ true → p.shutdown ≡ idle → Step g p (record p { shutdown = draining })
  closes_listener :
      (er : Error)
      → p.phase ≡ serving
      → p.shutdown ≢ idle
      → er.kind ≡ server_closed
      → Step g p (record p { phase = served (some er) })
  fails :
      (er : Error)
      → p.phase ≡ serving
      → er.kind ≢ server_closed
      → Step g p (record p { phase = served (some er) })
  drains : p.shutdown ≡ draining → Step g p (record p { shutdown = drained })
  closes_channel : p.shutdown ≡ drained → Step g p (record p { idle_conns_closed = true })
  checks : (res : Option Error) → p.phase ≡ served res → Step g p (record p { phase = g.check res })
  wakes : p.phase ≡ waiting → p.idle_conns_closed ≡ true → Step g p (record p { phase = g.woken })

pub data Reach (g : Program) : Process → Type 0 where
  starts : Reach g started
  steps : {p q : Process} → Reach g p → Step g p q → Reach g q
