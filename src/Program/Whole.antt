-- ===== src/Program/Whole.antt =====
-- cmd/kopilot-hub/main.go with `StartServer` of pkg/hub/peer/server.go running inside: the steps of
-- the hub's goroutines and those of the server for peers, in any order.
use kopilot.Base.{
  zero, suc, ◌≡◌, ◌≢◌, ◌<◌, ◌⊎◌, inl, inr, refl, sym, ◌∙◌, true, false, Bool, Option, none, some,
  Error, arith,
}
use kopilot.Program
use kopilot.Program.{
  Hub, launched, is_cancelled, after_serving, exit_after, on_signal, finished, running,
}
use kopilot.Program.Ends.{exit-Because}
use kopilot.Server
use kopilot.Server.{Process, Draining, idle, draining, drained, returned, start_server}
use kopilot.Server.Shutdown.{start_server-IsGraceful}

pub record Whole : Type 0 where
  pub hub : Hub
  -- Whether `StartServer` has read its key pair and CA and gone on to its server; and the server.
  pub set_up : Bool
  pub server : Process

-- `StartServer` is given the context that the first signal cancels, and its goroutine in `main`
-- goes on with what it returns. A key pair or CA that cannot be read ends the process inside of it,
-- by `log.Fatalf`.
pub data Step (x : Whole) : Whole → Type 0 where
  signals : x.hub.exit ≡ none → Step x (record x { hub = on_signal x.hub })
  api_returns :
      (res : Option Error)
      → x.hub.exit ≡ none
      → x.hub.api ≡ running
      → (res ≡ none → is_cancelled x.hub ≡ true)
      → Step x (record x { hub = record x.hub { api = after_serving res; exit = exit_after res } })
  fails_to_start :
      (er : Error)
      → x.hub.exit ≡ none
      → x.hub.peers ≡ running
      → x.set_up ≡ false
      → Step x (record x {
        hub = record x.hub { peers = after_serving (some er); exit = exit_after (some er) };
      })
  sets_up :
      x.hub.exit ≡ none
      → x.hub.peers ≡ running
      → x.set_up ≡ false
      → Step x (record x { set_up = true })
  serves :
      (p : Process)
      → x.hub.exit ≡ none
      → x.set_up ≡ true
      → Server.Step start_server x.server p
      → (p.stopped ≡ true → (x.server.stopped ≡ true) ⊎ (is_cancelled x.hub ≡ true))
      → Step x (record x { server = p })
  peers_returns :
      (res : Option Error)
      → x.hub.exit ≡ none
      → x.hub.peers ≡ running
      → x.set_up ≡ true
      → x.server.phase ≡ returned res
      → Step x
          (record x { hub = record x.hub { peers = after_serving res; exit = exit_after res } })
  waits :
      x.hub.exit ≡ none
      → x.hub.api ≡ finished
      → x.hub.peers ≡ finished
      → Step x (record x { hub = record x.hub { exit = some 0 } })

pub data Reach : Whole → Type 0 where
  starts : Reach (record { hub = launched; set_up = false; server = Server.started })
  steps : {x y : Whole} → Reach x → Step x y → Reach y

record Inv (x : Whole) : Type 0 where
  hub : Program.Reach x.hub
  server : Server.Reach start_server x.server
  told : x.server.stopped ≡ true → is_cancelled x.hub ≡ true
  clean : x.hub.peers ≡ finished → x.server.phase ≡ returned none

-- `Shutdown` is called only by a goroutine that was told to stop.
shutdown-stopped :
    {p : Process} → Server.Reach start_server p → p.shutdown ≢ idle → p.stopped ≡ true
shutdown-stopped Server.starts h = absurd (h refl)
shutdown-stopped (Server.steps r Server.stop) h = refl
shutdown-stopped (Server.steps r (Server.shuts_down on fresh)) h = on
shutdown-stopped (Server.steps r (Server.closes_listener er at off kind)) h = shutdown-stopped r h
shutdown-stopped (Server.steps r (Server.fails er at kind)) h = shutdown-stopped r h
shutdown-stopped (Server.steps r (Server.drains at)) h = shutdown-stopped r (λ k. cc)
shutdown-stopped (Server.steps r (Server.closes_channel at)) h = shutdown-stopped r h
shutdown-stopped (Server.steps r (Server.checks res at)) h = shutdown-stopped r h
shutdown-stopped (Server.steps r (Server.wakes at closed)) h = shutdown-stopped r h

returned-told :
    {p : Process} → Server.Reach start_server p → p.phase ≡ returned none → p.stopped ≡ true
returned-told r h = shutdown-stopped r (λ k. cc (start_server-IsGraceful r h))

-- `StartServer` has returned for good.
stays_returned :
    {p q : Process}
    → Server.Step start_server p q
    → p.phase ≡ returned none
    → q.phase ≡ returned none
stays_returned Server.stop h = h
stays_returned (Server.shuts_down on fresh) h = h
stays_returned (Server.closes_listener er at off kind) h = cc
stays_returned (Server.fails er at kind) h = cc
stays_returned (Server.drains at) h = h
stays_returned (Server.closes_channel at) h = h
stays_returned (Server.checks res at) h = cc
stays_returned (Server.wakes at closed) h = cc

on_signal-cancelled : (h : Hub) → is_cancelled (on_signal h) ≡ true
unfolding on_signal
on_signal-cancelled h =
    elim h.interrupts
      as (λ n.
        is_cancelled (elim n [
          | zero ↦ record h { interrupts = 1 }
          | suc n ↦ record h { interrupts = suc (suc n); exit = some 1 }
        ])
        ≡ true) [ zero ↦ refl | suc n ↦ ground arith ]

on_signal-peers : (h : Hub) → (on_signal h).peers ≡ h.peers
unfolding on_signal
on_signal-peers h = ground arith

Step-Inv : {x y : Whole} → Step x y → Inv x → Inv y
unfolding after_serving exit_after
Step-Inv {x} (signals on) v = record {
  hub = Program.steps v.hub (Program.signals on);
  server = v.server;
  told = λ h. on_signal-cancelled x.hub;
  clean = λ h. v.clean (sym (on_signal-peers x.hub) ∙ h);
}
Step-Inv (api_returns res on at ok) v = record {
  hub = Program.steps v.hub (Program.api_returns res on at ok);
  server = v.server;
  told = v.told;
  clean = v.clean;
}
Step-Inv {x} (fails_to_start er on at down) v = record {
  hub = Program.steps v.hub (Program.peers_returns (some er) on at (λ q. cc));
  server = v.server;
  told = v.told;
  clean = λ h. cc;
}
Step-Inv (sets_up on at down) v = record {
  hub = v.hub;
  server = v.server;
  told = v.told;
  clean = v.clean;
}
Step-Inv (serves p on up step only) v = record {
  hub = v.hub;
  server = Server.steps v.server step;
  told = λ h. elim (only h) [ inl old ↦ v.told old | inr now ↦ now ];
  clean = λ h. stays_returned step (v.clean h);
}
Step-Inv {x} (peers_returns none on at up over) v = record {
  hub =
      Program.steps v.hub
        (Program.peers_returns none on at (λ q. v.told (returned-told v.server over)));
  server = v.server;
  told = v.told;
  clean = λ h. over;
}
Step-Inv {x} (peers_returns (some er) on at up over) v = record {
  hub = Program.steps v.hub (Program.peers_returns (some er) on at (λ q. cc));
  server = v.server;
  told = v.told;
  clean = λ h. cc;
}
Step-Inv (waits on api peers) v = record {
  hub = Program.steps v.hub (Program.waits on api peers);
  server = v.server;
  told = v.told;
  clean = v.clean;
}

Reach-Inv : {x : Whole} → Reach x → Inv x
Reach-Inv starts = record {
  hub = Program.starts;
  server = Server.starts;
  told = λ h. cc;
  clean = λ h. cc;
}
Reach-Inv (steps r s) = Step-Inv s (Reach-Inv r)

-- The hub with its server for peers inside does only what the hub does by itself, whose server for
-- peers is assumed to return without an error only once its context is cancelled. And its process
-- ends with status 0 only after a signal has come, the server of the API has returned without an
-- error, and so has `StartServer`, whose connections are drained then. The server of the API is
-- assumed to return without an error only once its context is cancelled.
pub exit-IsGraceful :
    {x : Whole}
    → Reach x
    → Program.Reach x.hub
      × (x.hub.exit ≡ some 0
          → (0 < x.hub.interrupts)
            × (x.hub.api ≡ finished)
            × (x.server.phase ≡ returned none)
            × (x.server.shutdown ≡ drained))
exit-IsGraceful {x} r =
    let v = Reach-Inv r in
    (
      v.hub,
      λ h. elim (exit-Because 0 v.hub h) [
        | inl (_, api, peers, signalled) ↦
            (signalled, api, v.clean peers, start_server-IsGraceful v.server (v.clean peers))
        | inr (odd, _) ↦ absurd (omega (arith, odd))
      ],
    )
