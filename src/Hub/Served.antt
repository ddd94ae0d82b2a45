-- ===== src/Hub/Served.antt =====
-- The subresources as the hub registers them: the constructors in pkg/hub/cluster/subresources.go,
-- and their registration in cmd/kopilot-hub/main.go.
pub mod Touching
use Prim.Native.String.{◌++◌}
use kopilot.Base.{String, List, [], ◌∷◌, Bool, true, Option, none, some}
use kopilot.Api.{NamespacedName, group_name}
use kopilot.Hub.{Env, Handler}
use kopilot.Hub.Config.{Config}
use kopilot.Hub.Subresources.{PeerManager, agent_handler, connect_handler, proxy_handler}
use kopilot.Hub.Peer.{manager}

-- `subresourceserver.Subresource`, of another repository. `route` is nil for two of them.
pub record Subresource (e : Env) : Type 0 where
  pub namespace_scoped : Bool
  pub group : String
  pub version : String
  pub resource : String
  pub name : String
  pub connect_methods : List String
  pub connect : NamespacedName → Handler e
  pub route : Option (NamespacedName → String → Handler e)

module _ (e : Env) (c : Config) where
  -- What the three have in common: the scope, `GroupVersionResource` and the method.
  abbrev pub subresource :
      String
      → (NamespacedName → Handler e)
      → Option (NamespacedName → String → Handler e)
      → Subresource e
  subresource name connect route = record {
    namespace_scoped = true;
    group = "subresource." ++ group_name;
    version = "v1alpha1";
    resource = "clusters";
    name = name;
    connect_methods = "GET" ∷ [];
    connect = connect;
    route = route;
  }

  unfoldable pub new_agent_subresource : Subresource e
  new_agent_subresource = subresource "agent" (agent_handler e c) none

  unfoldable pub new_connect_subresource : Subresource e
  new_connect_subresource = subresource "connect" (connect_handler e c) none

  unfoldable pub new_proxy_subresource : Option (PeerManager e) → Subresource e
  new_proxy_subresource peer_manager =
      subresource "proxy" (λ key. proxy_handler e c peer_manager key "")
        (some (λ key path. proxy_handler e c peer_manager key path))

  -- What `main` of the hub adds to its server.
  unfoldable pub hub_subresources : List (Subresource e)
  hub_subresources =
      new_agent_subresource
      ∷ new_connect_subresource
      ∷ new_proxy_subresource (some (manager e c))
      ∷ []
