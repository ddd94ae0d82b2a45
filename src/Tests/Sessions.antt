-- ===== src/Tests/Sessions.antt =====
-- Dials over the small network: a dead session of a cluster is dropped, a live one answers.
use kopilot.Base.{
  ◌≡◌, refl, ℕ, List, [], ◌∷◌, done, ok, is_ok, any, keep, lookup, insert, remove_at, SlashFree,
}
use kopilot.Session.{
  SessionManager, Dialled, new_session_manager, add_cluster_session, sessions, dial, dial_cluster,
}
use kopilot.Session.Dialling.{Contract, dial_cluster-Contract}
use kopilot.Session.Failover.{dial_cluster-FailsOver}
use kopilot.Session.Isolation.{
  Hub, Reach, starts, steps, adds, IsRegistered, dial_cluster-IsRegistered,
}
use kopilot.Tests.Demo.{alive, net, net-IntnInRange, net-IsSteady, closing, key}

-- Session 3 is dead, 12 is alive.
abbrev two_agents : SessionManager net
two_agents =
    add_cluster_session net key 12 (add_cluster_session net key 3 (new_session_manager net))

abbrev one_agent : SessionManager net
one_agent = record { session_lists = ("a/c1", 12 ∷ []) ∷ [] }

failover_test : dial_cluster net key two_agents [] ≡ done (ok 12, one_agent, 3 ∷ [])
unfolding dial_cluster dial lookup insert remove_at add_cluster_session new_session_manager
failover_test = refl

dial_cluster-Contract_example :
    (d : Dialled net) × (dial_cluster net key two_agents [] ≡ done d)
    × Contract net closing "a/c1" (sessions net two_agents "a/c1") d
dial_cluster-Contract_example = dial_cluster-Contract net net-IntnInRange closing key two_agents []

dial_cluster-FailsOver_example :
    (d : Dialled net) × (dial_cluster net key two_agents [] ≡ done d)
    × (is_ok d.0 ≡ any alive (sessions net two_agents "a/c1"))
    × (keep alive (sessions net d.1 "a/c1") ≡ keep alive (sessions net two_agents "a/c1"))
dial_cluster-FailsOver_example =
    dial_cluster-FailsOver net net-IntnInRange alive net-IsSteady key two_agents []

abbrev served_hub : Hub net
served_hub = record { manager = two_agents; world = []; log = (key, 12) ∷ (key, 3) ∷ [] }

served_hub-Reach : Reach net served_hub
served_hub-Reach = steps (steps (starts []) (adds key 3)) (adds key 12)

a-SlashFree : SlashFree "a"
a-SlashFree = ((λ h. cc), tt)

dial_cluster-IsRegistered_example :
    (s : ℕ) × (v : List ℕ) × IsRegistered net key s served_hub.log × ((net.open_conn s v).0 ≡ ok 12)
dial_cluster-IsRegistered_example =
    dial_cluster-IsRegistered net net-IntnInRange (λ k. refl) served_hub-Reach key 12 one_agent
      (3 ∷ []) a-SlashFree (a-SlashFree, (a-SlashFree, tt)) failover_test
