-- ===== src/Program.antt =====
-- cmd/kopilot-hub/main.go, from the contexts on: two servers in goroutines of an error group, and
-- one that waits for signals.
pub mod Ends
pub mod Clients
pub mod Whole
use kopilot.Base.{ℕ, zero, suc, ◌≡◌, Bool, true, false, Option, none, some, Error, ltb}

-- A server's goroutine: its server runs, or it has returned, without an error or with one.
pub data Serving : Type 0 where
  running finished : Serving
  failed : Error → Serving

-- `interrupts` counts the signals taken from `shutdownHandler`; `exit` is the status of the
-- process, once it has ended.
pub record Hub : Type 0 where
  pub interrupts : ℕ
  pub api : Serving
  pub peers : Serving
  pub exit : Option ℕ

abbrev pub launched : Hub
launched = record { interrupts = 0; api = running; peers = running; exit = none }

-- The first signal calls `cancel`; no goroutine of the group returns an error, which would too.
abbrev pub is_cancelled : Hub → Bool
is_cancelled h = ltb 0 h.interrupts

-- `if err := …; err != nil { log.Fatalf(…) }; return nil`.
unfoldable pub after_serving : Option Error → Serving
after_serving none = finished
after_serving (some er) = failed er

unfoldable pub exit_after : Option Error → Option ℕ
exit_after none = none
exit_after (some er) = some 1

-- `<-shutdownHandler; cancel(); <-shutdownHandler; os.Exit(1)`.
unfoldable pub on_signal : Hub → Hub
on_signal h = elim h.interrupts [
  | zero ↦ record h { interrupts = 1 }
  | suc n ↦ record h { interrupts = suc (suc n); exit = some 1 }
]

-- The goroutines and `main`, in any order, until the process ends. A server that is given a context
-- returns without an error only once the context is cancelled.
pub data Step (h : Hub) : Hub → Type 0 where
  signals : h.exit ≡ none → Step h (on_signal h)
  api_returns :
      (res : Option Error)
      → h.exit ≡ none
      → h.api ≡ running
      → (res ≡ none → is_cancelled h ≡ true)
      → Step h (record h { api = after_serving res; exit = exit_after res })
  peers_returns :
      (res : Option Error)
      → h.exit ≡ none
      → h.peers ≡ running
      → (res ≡ none → is_cancelled h ≡ true)
      → Step h (record h { peers = after_serving res; exit = exit_after res })
  waits :
      h.exit ≡ none → h.api ≡ finished → h.peers ≡ finished → Step h (record h { exit = some 0 })

pub data Reach : Hub → Type 0 where
  starts : Reach launched
  steps : {h k : Hub} → Reach h → Step h k → Reach k
