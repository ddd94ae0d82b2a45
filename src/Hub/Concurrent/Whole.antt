-- ===== src/Hub/Concurrent/Whole.antt =====
-- The handlers of the hub that a request may reach, as routines.
use kopilot.Base.{String, Bool}
use kopilot.Api.{NamespacedName}
use kopilot.Hub.{Env}
use kopilot.Hub.Config.{Config}
use kopilot.Hub.Concurrent.Serving.{Service}
use kopilot.Hub.Concurrent.Handlers.{agent_routine, connect_routine, proxy_routine, peer_routine}

module _ (e : Env) (c : Config) where
  pub data Handles : Service e → Type 0 where
    fetches : (key : NamespacedName) → Handles (agent_routine e c key)
    connects : (key : NamespacedName) → Handles (connect_routine e c key)
    proxies :
        (has_peers : Bool) (key : NamespacedName) (sub : String)
        → Handles (proxy_routine e c has_peers key sub)
    relays : Handles (peer_routine e c)
