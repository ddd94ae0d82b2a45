-- ===== src/Tests/Concurrency.antt =====
-- Requests of a hub that run at once: an agent connects while a client's request is under way.
use Prim.Native.String.{◌++◌}
use kopilot.Base.{◌∷◌, String, true, lookup, All, SlashFree, ◌≡◌, refl, ℕ, List, [], In, done, ok}
use kopilot.Session.{dial_cluster}
use kopilot.Http.{fresh, query_get}
use kopilot.Hub.Concurrent.{◌>>=◌}
use kopilot.Hub.Concurrent.Serving.{looks_up, found_cluster, checks_token}
use kopilot.Hub.Concurrent.Handlers.{
  connect_routine, connect_rest, multiplexes, registers, proxy_routine,
}
use kopilot.Hub.Concurrent.Whole.{connects, proxies}
use kopilot.Hub.Concurrent.System.{
  Registration, System, Reach, starts, steps, accepts, asking, adding, Shows,
}
use kopilot.Hub.Concurrent.Isolation.{dial_cluster-WasShown}
use kopilot.Hub.Concurrent.Progress.{Proceeds, Reach-Proceeds}
use kopilot.Tests.Demo.{
  local_url, net, net-IntnInRange, env, config, key, ask, a-SlashFree, connected, dials_test,
}

templated_test :
    (image url : String)
    → env.template_execute "connect: " (("imageName", image) ∷ ("connectURL", url) ∷ [])
      ≡ ok ("connect: " ++ url)
unfolding lookup
templated_test image url = refl

-- The connect request has looked its cluster up when the proxy's request arrives and does the same.
reached :
    (s : System env config) × Reach env config s
    × All (λ g. SlashFree g.key.namespace) s.log
    × (dial_cluster net key s.manager s.world ≡ done (ok 12, connected, []))
unfolding connect_routine proxy_routine looks_up ◌>>=◌ found_cluster checks_token query_get
    connect_rest multiplexes registers lookup
reached = (
  _,
  steps
      (steps
        (steps
          (steps
            (steps
              (steps
                (steps (starts (ask "" "") fresh [])
                  (accepts 0 _ fresh fresh (ask "/connect" "t") (connects key) refl))
                (asking 0 _ _ refl))
              (accepts 1 _ fresh fresh (ask "/proxy" "t") (proxies true key "/api") refl))
            (asking 1 _ _ refl))
          (asking 0 _ _ refl))
        (asking 0 _ _ refl))
      (adding 0 key 12 _ refl),
  (a-SlashFree, tt),
  dials_test,
)

dial_cluster-WasShown_example :
    (g : Registration env config) × (u : List ℕ) × In g reached.0.log
    × (g.key ≡ key)
    × ((net.open_conn g.session u).0 ≡ ok 12)
    × Shows env config key g.request g.met
dial_cluster-WasShown_example =
    dial_cluster-WasShown env config net-IntnInRange (λ k. refl) reached.1 key 12 connected []
      a-SlashFree reached.2 reached.3

Reach-Proceeds_example : Proceeds env config reached.0 1
Reach-Proceeds_example =
    Reach-Proceeds env config net-IntnInRange local_url refl "connect: " refl
      (λ image url. (_, templated_test image url)) reached.1 1
