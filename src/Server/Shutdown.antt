-- ===== src/Server/Shutdown.antt =====
-- How the two servers end.
use kopilot.Base.{
  ◌≡◌, ◌≢◌, refl, sym, ◌∙◌, Bool, true, Option, none, some, Error, server_closed, ℕ, arith,
}
use kopilot.Server.{
  waiting, served, returned, exited, Draining, draining, drained, start_server, agent_main, Process,
  Step, stop, shuts_down, closes_listener, fails, drains, closes_channel, checks, wakes, Reach,
  starts, steps,
}

-- The serving goroutine of `StartServer`.
record Inv (p : Process) : Type 0 where
  channel : p.idle_conns_closed ≡ true → p.shutdown ≡ drained
  clean : p.phase ≡ returned none → p.idle_conns_closed ≡ true
  failed : (er : Error) → p.phase ≡ returned (some er) → er.kind ≢ server_closed
  inside : (n : ℕ) → p.phase ≢ exited n

Step-Inv : {p q : Process} → Step start_server p q → Inv p → Inv q
unfolding start_server
Step-Inv stop v = record {
  channel = v.channel;
  clean = v.clean;
  failed = v.failed;
  inside = v.inside;
}
Step-Inv (shuts_down on fresh) v = record {
  channel = λ h. cc (v.channel h);
  clean = v.clean;
  failed = v.failed;
  inside = v.inside;
}
Step-Inv (closes_listener er at off kind) v = record {
  channel = v.channel;
  clean = λ h. cc;
  failed = λ er' h. cc;
  inside = λ n h. cc;
}
Step-Inv (fails er at kind) v = record {
  channel = v.channel;
  clean = λ h. cc;
  failed = λ er' h. cc;
  inside = λ n h. cc;
}
Step-Inv (drains at) v = record {
  channel = λ h. refl;
  clean = v.clean;
  failed = v.failed;
  inside = v.inside;
}
Step-Inv (closes_channel at) v = record {
  channel = λ h. at;
  clean = λ h. refl;
  failed = v.failed;
  inside = v.inside;
}
Step-Inv (checks none at) v = record {
  channel = v.channel;
  clean = λ h. cc;
  failed = λ er' h. cc;
  inside = λ n h. cc;
}
Step-Inv (checks (some er) at) v = record {
  channel = v.channel;
  clean = λ h. ground arith;
  failed = λ er' h k. ground arith;
  inside = λ n h. ground arith;
}
Step-Inv (wakes at closed) v = record {
  channel = v.channel;
  clean = λ h. closed;
  failed = λ er h. cc;
  inside = λ n h. cc;
}

Reach-Inv : {p : Process} → Reach start_server p → Inv p
Reach-Inv starts = record {
  channel = λ h. cc;
  clean = λ h. cc;
  failed = λ er h. cc;
  inside = λ n h. cc;
}
Reach-Inv (steps r s) = Step-Inv s (Reach-Inv r)

-- The server for peers returns without an error only after `Shutdown` has drained its connections.
pub start_server-IsGraceful :
    {p : Process} → Reach start_server p → p.phase ≡ returned none → p.shutdown ≡ drained
start_server-IsGraceful r h = let v = Reach-Inv r in v.channel (v.clean h)

-- The server for peers returns an error only if serving failed, not because it was shut down.
pub start_server-returns_failure :
    {p : Process} (er : Error)
    → Reach start_server p
    → p.phase ≡ returned (some er)
    → er.kind ≢ server_closed
start_server-returns_failure er r h = (Reach-Inv r).failed er h

-- The serving goroutine of the agent's `main`.
record AgentInv (p : Process) : Type 0 where
  never_waits : p.phase ≢ waiting
  never_nil : p.phase ≢ served none
  one : (n : ℕ) → p.phase ≡ exited n → n ≡ 1
  inside : (res : Option Error) → p.phase ≢ returned res

AgentInv-same : {p q : Process} → q.phase ≡ p.phase → AgentInv p → AgentInv q
AgentInv-same e v = record {
  never_waits = λ h. v.never_waits (sym e ∙ h);
  never_nil = λ h. v.never_nil (sym e ∙ h);
  one = λ n h. v.one n (sym e ∙ h);
  inside = λ res h. v.inside res (sym e ∙ h);
}

AgentInv-served :
    (er : Error) {s : Bool} {d : Draining} {b : Bool}
    → AgentInv
        (record { phase = served (some er); stopped = s; shutdown = d; idle_conns_closed = b })
AgentInv-served er = record {
  never_waits = λ h. cc;
  never_nil = λ h. cc;
  one = λ n h. cc;
  inside = λ res h. cc;
}

Step-AgentInv : {p q : Process} → Step agent_main p q → AgentInv p → AgentInv q
unfolding agent_main
Step-AgentInv stop v = AgentInv-same refl v
Step-AgentInv (shuts_down on fresh) v = AgentInv-same refl v
Step-AgentInv (closes_listener er at off kind) v = AgentInv-served er
Step-AgentInv (fails er at kind) v = AgentInv-served er
Step-AgentInv (drains at) v = AgentInv-same refl v
Step-AgentInv (closes_channel at) v = AgentInv-same refl v
Step-AgentInv (checks none at) v = absurd (v.never_nil at)
Step-AgentInv (checks (some er) at) v = record {
  never_waits = λ h. cc;
  never_nil = λ h. cc;
  one = λ n h. ground arith;
  inside = λ res h. cc;
}
Step-AgentInv (wakes at closed) v = absurd (v.never_waits at)

Reach-AgentInv : {p : Process} → Reach agent_main p → AgentInv p
Reach-AgentInv starts = record {
  never_waits = λ h. cc;
  never_nil = λ h. cc;
  one = λ n h. cc;
  inside = λ res h. cc;
}
Reach-AgentInv (steps r s) = Step-AgentInv s (Reach-AgentInv r)

-- However the agent is stopped, its process ends with status 1 if it ends, also where `Serve`
-- returned since the server was shut down.
pub agent_main-IsAbrupt : {p : Process} (n : ℕ) → Reach agent_main p → p.phase ≡ exited n → n ≡ 1
agent_main-IsAbrupt n r h = (Reach-AgentInv r).one n h

closed_error : Error
closed_error = record { kind = server_closed; text = "http: Server closed" }

-- Told to stop, the agent can end while its connections are still being drained.
agent_main_undrained :
    (p : Process) × Reach agent_main p × (p.phase ≡ exited 1) × (p.shutdown ≡ draining)
unfolding agent_main closed_error
agent_main_undrained = (
  _,
  steps
      (steps (steps (steps starts stop) (shuts_down refl refl))
        (closes_listener closed_error refl (λ h. cc) refl))
      (checks (some closed_error) refl),
  refl,
  refl,
)
