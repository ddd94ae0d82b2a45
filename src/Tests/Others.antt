-- ===== src/Tests/Others.antt =====
-- The servers' ends, the copies and the agent, each run once.
use Prim.Native.String.{◌++◌}
use kopilot.Base.{
  Table, String, ◌≡◌, refl, ℕ, [], ◌∷◌, true, false, none, some, Error, server_closed, ok, nat_eq,
  if◌then◌else◌, arith,
}
use kopilot.Api.DeepCopy.{
  MetaCopy, IsFaithful, Heap, ListObject, put, items_on, deep_copy_list_into,
  deep_copy_list_into-IsSeparate,
}
use kopilot.Server.{
  Process, Reach, starts, steps, stop, shuts_down, closes_listener, checks, exited, draining,
  agent_main,
}
use kopilot.Server.Shutdown.{agent_main-IsAbrupt}
use kopilot.Agent.{AgentEnv, AgentServer, agent_director}
use kopilot.Tests.Demo.{kube, cluster, local_url}

abbrev closed_error : Error
closed_error = record { kind = server_closed; text = "http: Server closed" }

abbrev killed : Process
killed = record { phase = exited 1; stopped = true; shutdown = draining; idle_conns_closed = false }

killed-Reach : Reach agent_main killed
unfolding agent_main
killed-Reach =
    steps
      (steps (steps (steps starts stop) (shuts_down refl refl))
        (closes_listener closed_error refl (λ h. cc) refl))
      (checks (some closed_error) refl)

abbrev failure : ℕ
failure = 1

agent_main-IsAbrupt_example : failure ≡ 1
agent_main-IsAbrupt_example = agent_main-IsAbrupt failure killed-Reach refl

abbrev list_object : ListObject kube
list_object = record { type_meta = tt; list_meta = 3; items = some 0 }

abbrev meta_copy : MetaCopy kube
meta_copy = record { object_meta = λ x. x; list_meta = λ x. x }

meta_copy-IsFaithful : IsFaithful meta_copy
meta_copy-IsFaithful = record { object_meta_eq = λ x. refl; list_meta_eq = λ x. refl }

abbrev one_array : Heap kube
one_array = record { next = 1; array = λ r. if nat_eq r 0 then some (cluster ∷ []) else none }

deep_copy_list_into-IsSeparate_example :
    (l' : ListObject kube) × (h' : Heap kube) × (r' : ℕ) × (deep_copy_list_into meta_copy
        list_object one_array
      ≡ some (l', h'))
    × ((l'.type_meta ≡ list_object.type_meta)
        × (l'.list_meta ≡ list_object.list_meta)
        × (l'.items ≡ some r'))
    × ((items_on h' l' ≡ some (cluster ∷ [])) × (items_on h' list_object ≡ some (cluster ∷ [])))
    × ((items_on (put meta_copy h' 0 []) l' ≡ some (cluster ∷ []))
        × (items_on (put meta_copy h' r' []) list_object ≡ some (cluster ∷ [])))
deep_copy_list_into-IsSeparate_example =
    deep_copy_list_into-IsSeparate meta_copy meta_copy-IsFaithful list_object one_array 0
      (cluster ∷ []) [] refl (omega arith) refl

abbrev agent_env : AgentEnv
agent_env = record {
  World = ℕ;
  WsConn = ℕ;
  Session = ℕ;
  dial_hub = λ tls url v. (ok 5, v);
  yamux_client = λ conn v. (ok conn, v);
  url_parse = λ s. ok local_url;
  read_file = λ file v. ok "sa";
  join_path = λ d f. d ++ ("/" ++ f);
  quote = λ s. s;
}

abbrev ready_server : AgentServer agent_env
ready_server = record { session = 5; director = agent_director local_url "sa"; root_cas = "sa" }

abbrev given : Table String
given = ("apiserver", "10.0.0.1:443") ∷ ("connect", "wss://hub") ∷ []

abbrev addr : String
addr = "10.0.0.1:443"
