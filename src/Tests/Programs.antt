-- ===== src/Tests/Programs.antt =====
-- The hub's start and its end.
use kopilot.Base.{
  Error, server_closed, true, inl, inr, ◌<◌, ◌≡◌, ◌↔◌, refl, ℕ, String, List, [], none, some,
  Result, ok, ready,
}
use kopilot.Hub.Peer.{cert_path}
use kopilot.Hub.Startup.{PeerServer, set_up_server}
use kopilot.Hub.Startup.Guarded.{IsGuarded, set_up_server-IsGuarded}
use kopilot.Program.{
  Hub, finished, after_serving, exit_after, on_signal, Reach, starts, steps, signals, api_returns,
  peers_returns, waits,
}
use kopilot.Program.Whole
use kopilot.Program.Whole.{exit-IsGraceful}
use kopilot.Server
use kopilot.Server.{Process, returned, drained, start_server}
use kopilot.Program.Ends.{Because, exit-Because}
use kopilot.Tests.Demo.{env, config}

abbrev read_file : String → List ℕ → Result String
read_file file v = ok "ca"

set_up_server-IsGuarded_example :
    (((s : PeerServer env) × (set_up_server env config read_file [] ≡ ready s)) ↔ (
      (cert : Unit {0}) × (ca : String) × (env.load_key_pair
          (cert_path env config "tls.crt")
          (cert_path env config "tls.key")
          []
        ≡ ok cert)
      × (read_file (cert_path env config "ca.crt") [] ≡ ok ca)))
    × ((s : PeerServer env)
        → set_up_server env config read_file [] ≡ ready s
        → IsGuarded env config read_file [] s)
set_up_server-IsGuarded_example = set_up_server-IsGuarded env config read_file []

abbrev stopped : Hub
stopped = record { interrupts = 1; api = finished; peers = finished; exit = some 0 }

stopped-Reach : Reach stopped
unfolding on_signal after_serving exit_after
stopped-Reach =
    steps
      (steps (steps (steps starts (signals refl)) (api_returns none refl refl (λ _. refl)))
        (peers_returns none refl refl (λ _. refl)))
      (waits refl refl refl)

exit-Because_example : Because stopped 0
exit-Because_example = exit-Because 0 stopped-Reach refl

abbrev closed_error : Error
closed_error = record { kind = server_closed; text = "http: Server closed" }

abbrev drained_server : Process
drained_server = record {
  phase = returned none;
  stopped = true;
  shutdown = drained;
  idle_conns_closed = true;
}

-- A signal comes, and both servers return.
whole-Reach : Whole.Reach (record { hub = stopped; set_up = true; server = drained_server })
unfolding on_signal after_serving exit_after start_server
whole-Reach =
    Whole.steps
      (Whole.steps
        (Whole.steps
          (Whole.steps
            (Whole.steps
              (Whole.steps
                (Whole.steps
                  (Whole.steps
                    (Whole.steps
                      (Whole.steps
                        (Whole.steps (Whole.steps Whole.starts (Whole.sets_up refl refl refl))
                          (Whole.signals refl))
                        (Whole.serves _ refl refl Server.stop (λ h. inr refl)))
                      (Whole.serves _ refl refl (Server.shuts_down refl refl) (λ h. inl refl)))
                    (Whole.serves _ refl refl
                      (Server.closes_listener closed_error refl (λ h. cc) refl) (λ h. inl refl)))
                  (Whole.serves _ refl refl (Server.checks (some closed_error) refl)
                    (λ h. inl refl)))
                (Whole.serves _ refl refl (Server.drains refl) (λ h. inl refl)))
              (Whole.serves _ refl refl (Server.closes_channel refl) (λ h. inl refl)))
            (Whole.serves _ refl refl (Server.wakes refl refl) (λ h. inl refl)))
          (Whole.api_returns none refl refl (λ _. refl)))
        (Whole.peers_returns none refl refl refl refl))
      (Whole.waits refl refl refl)

exit-IsGraceful_example :
    Reach stopped
    × (stopped.exit ≡ some 0
        → (0 < 1)
          × (stopped.api ≡ finished)
          × (drained_server.phase ≡ returned none)
          × (drained_server.shutdown ≡ drained))
exit-IsGraceful_example = exit-IsGraceful whole-Reach
