-- ===== src/Hub/Peer/Routing.antt =====
-- The route of a peer's server against the requests of `TryNextPeer`.
use Prim.Native.String.{◌++◌}
use kopilot.Base.{eq_iff, ◌≡◌, ◌≢◌, ap, String, none, some, trim_prefix-append, SlashFree}
use kopilot.Api.{NamespacedName}
use kopilot.Http.{Request, Writer}
use kopilot.Hub.{Env, State}
use kopilot.Hub.Config.{Config}
use kopilot.Hub.Subresources.{proxy_handler}
use kopilot.Hub.Peer.{proxy_prefix, peer_handler}
use kopilot.Hub.Peer.Search.{peer_request}

module _ (e : Env) where
  open e use {route_vars, clean_path}

  -- The router does not redirect a request for the subpath to a path that it has cleaned.
  abbrev pub IsClean : String → String → String → Type 0
  IsClean namespace name rest =
      clean_path (proxy_prefix namespace name ++ ("/" ++ rest))
      ≡ proxy_prefix namespace name ++ ("/" ++ rest)

  -- Documented of gorilla/mux: in a path that is clean, a variable of a path template stands for one
  -- segment, whole.
  abbrev pub RoutesSegments : Type 0
  RoutesSegments =
      (namespace name rest : String)
      → SlashFree namespace
      → namespace ≢ ""
      → SlashFree name
      → name ≢ ""
      → IsClean namespace name rest
      → route_vars (proxy_prefix namespace name ++ ("/" ++ rest)) ≡ some (namespace, name)

  pub peer_handler-routed :
      (routes : RoutesSegments) (c : Config) (key : NamespacedName) (rest : String) (w : Writer)
      (r : Request) (s : State e)
      → SlashFree key.namespace
      → key.namespace ≢ ""
      → SlashFree key.name
      → key.name ≢ ""
      → IsClean key.namespace key.name rest
      → peer_handler e c w
          (record r { path = proxy_prefix key.namespace key.name ++ ("/" ++ rest) })
          s
        ≡ proxy_handler e c none key
            ("/" ++ rest)
            w
            (record r { path = proxy_prefix key.namespace key.name ++ ("/" ++ rest) })
            s
  unfolding peer_handler
  peer_handler-routed routes c key rest w r s f n f' n' clean =
      let prefix = proxy_prefix key.namespace key.name in
      let out : Request = record r { path = prefix ++ ("/" ++ rest) } in
      rw ((eq_iff _ _).1 clean, routes key.namespace key.name rest f n f' n' clean, peer_handler)
        (ap (λ (q : String). proxy_handler e c none key q w out s)
          (trim_prefix-append prefix ("/" ++ rest)))

  -- A peer serves the request of a search as its own proxy would, with no peers of its own: for
  -- the same cluster and under the same subpath, if the key has no slash and no empty part, the
  -- subpath begins with a slash, and the router has nothing to clean about the path.
  pub peer_handler-peer_request :
      (routes : RoutesSegments) (c : Config) (key : NamespacedName) (rest peer : String)
      (w : Writer) (r : Request) (s : State e)
      → SlashFree key.namespace
      → key.namespace ≢ ""
      → SlashFree key.name
      → key.name ≢ ""
      → IsClean key.namespace key.name rest
      → peer_handler e c w (peer_request key ("/" ++ rest) r peer) s
        ≡ proxy_handler e c none key ("/" ++ rest) w (peer_request key ("/" ++ rest) r peer) s
  peer_handler-peer_request routes c key rest peer w r =
      peer_handler-routed routes c key rest w (peer_request key ("/" ++ rest) r peer)
