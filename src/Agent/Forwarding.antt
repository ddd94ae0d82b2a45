-- ===== src/Agent/Forwarding.antt =====
-- What reaches the member cluster's API server.
use Prim.Native.String.{◌++◌}
use kopilot.Base.{Table, Table, ◌≡◌, String, some, lookup, ok}
use kopilot.Http.{forwarded, Url, Request}
use kopilot.Agent.{AgentEnv, AgentServer, service_account_dir, agent_director}

-- What a reverse proxy with a director sends out for a request, as far as it is told below.
abbrev Sends : Url → String → Request → String → (Request → Request) → Type 0
Sends target token req name director =
    ((forwarded (director req)).scheme ≡ target.scheme)
    × ((forwarded (director req)).host ≡ target.host)
    × ((forwarded (director req)).path ≡ req.path)
    × (lookup "Authorization" (forwarded (director req)).header ≡ some ("Bearer " ++ token))
    × (lookup name (forwarded (director req)).header ≡ lookup name req.header)

module _ (a : AgentEnv) where
  abbrev HoldsToken : String → a.World → AgentServer a → Type 0
  HoldsToken apiserver_addr v s =
      (target : Url) × (token : String) × (a.url_parse ("https://" ++ apiserver_addr) ≡ ok target)
      × (a.read_file (a.join_path service_account_dir "token") v ≡ ok token)
      × (s.director ≡ agent_director target token)
