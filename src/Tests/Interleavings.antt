-- ===== src/Tests/Interleavings.antt =====
-- Two goroutines at one session manager, a statement at a time, and a manager over slices.
use kopilot.Base.{◌≡◌, refl, ℕ, List, [], ◌∷◌, ok, lookup, insert, done, remove_at}
use kopilot.Session.{
  SessionManager, new_session_manager, add_cluster_session, sessions, dial_cluster,
}
use kopilot.Session
use kopilot.Session.Slices.{new_slice_manager}
use kopilot.Session.Slices.Running.{run, run_in_place, run_in_place-run}
use kopilot.Session.Interleaving.{
  Call, add, dial, added, dialled, add_reads, add_writes, dial_reads, dial_tests, dial_opens,
  returns, System, Reach, starts, steps, calls, locks, runs, unlocks, moves, advance, Serial,
}
use kopilot.Session.Interleaving.Serializing.{Reach-Serial}
use kopilot.Session.Interleaving.Releasing.{Nears, Reach-Nears}
use kopilot.Session.Interleaving.Granting.{IsAdded, Reach-IsAdded}
use kopilot.Tests.Demo.{net, net-IntnInRange, key}

abbrev empty : SessionManager net
empty = record { session_lists = [] }

abbrev one_agent : SessionManager net
one_agent = record { session_lists = ("a/c1", 12 ∷ []) ∷ [] }

-- Goroutine 0 adds session 12 while goroutine 1 waits to dial, and another session closes
-- meanwhile.
adding : (s : System net) × Reach net s
unfolding advance insert lookup new_session_manager
adding = (
  _,
  steps
      (steps
        (steps
          (steps
            (steps (steps (steps (starts []) (calls 0 (add key 12) refl)) (calls 1 (dial key) refl))
              (locks 0 (add key 12) refl refl))
            (runs 0 (add_reads key 12) (add_writes key 12 (12 ∷ [])) empty [] refl refl))
          (moves (3 ∷ [])))
        (runs 0 (add_writes key 12 (12 ∷ [])) (returns (add key 12) added) one_agent (3 ∷ []) refl
          refl))
      (unlocks 0 (add key 12) added refl),
)

dialled_after : (s : System net) × Reach net s
unfolding advance insert lookup new_session_manager adding
dialled_after = (
  _,
  steps
      (steps
        (steps
          (steps (steps adding.1 (locks 1 (dial key) refl refl))
            (runs 1 (dial_reads key) (dial_tests key (12 ∷ [])) one_agent (3 ∷ []) refl refl))
          (runs 1 (dial_tests key (12 ∷ [])) (dial_opens key (12 ∷ []) 0) one_agent (3 ∷ []) refl
            refl))
        (runs 1 (dial_opens key (12 ∷ []) 0) (returns (dial key) (dialled (ok 12))) one_agent
          (3 ∷ []) refl refl))
      (unlocks 1 (dial key) (dialled (ok 12)) refl),
)

Reach-Serial_example : Serial net dialled_after.0.log dialled_after.0.manager
unfolding adding dialled_after
Reach-Serial_example = Reach-Serial net dialled_after.1 refl

Reach-IsAdded_example :
    (t : ℕ) × (v : List ℕ) × IsAdded net "a/c1" t
      (record { thread = 0; call = add key 12; reply = added } ∷ [])
    × ((net.open_conn t v).0 ≡ ok 12)
unfolding adding dialled_after
Reach-IsAdded_example = Reach-IsAdded net [] _ 1 key 12 dialled_after.1 refl

abbrev calls_made : List (Call net)
calls_made = add key 3 ∷ add key 12 ∷ dial key ∷ add key 14 ∷ dial key ∷ []

run_in_place-run_example :
    run_in_place net (λ k. 7 ∷ 8 ∷ []) calls_made (new_slice_manager net) []
    ≡ run net calls_made (new_session_manager net) []
run_in_place-run_example = run_in_place-run net (λ k. 7 ∷ 8 ∷ []) calls_made []

run_test : run net calls_made (new_session_manager net) [] ≡ done (ok 12 ∷ ok 12 ∷ [], 3 ∷ [])
unfolding run add_cluster_session new_session_manager dial_cluster Session.dial lookup insert
    remove_at
run_test = refl

-- The goroutine that dials has drawn an index.
drawn : (s : System net) × Reach net s
unfolding advance insert lookup new_session_manager adding
drawn = (
  _,
  steps
      (steps (steps adding.1 (locks 1 (dial key) refl refl))
        (runs 1 (dial_reads key) (dial_tests key (12 ∷ [])) one_agent (3 ∷ []) refl refl))
      (runs 1 (dial_tests key (12 ∷ [])) (dial_opens key (12 ∷ []) 0) one_agent (3 ∷ []) refl refl),
)

Reach-Nears_example : Nears net drawn.0.manager drawn.0.world (dial_opens key (12 ∷ []) 0)
unfolding adding drawn
Reach-Nears_example = Reach-Nears net 1 (dial_opens key (12 ∷ []) 0) net-IntnInRange drawn.1 refl
