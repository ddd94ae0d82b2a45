-- ===== src/Lib.antt =====
-- Kopilot gives a host Kubernetes cluster access to member clusters behind NAT. An agent in a member
-- cluster opens a WebSocket to a hub (subresource "connect" of a `Cluster` object); the hub keeps a
-- yamux session over it, and sends requests for the member's API server back through that session
-- (subresource "proxy"). Hubs run in several replicas: one that has no session of a cluster asks its
-- peers. Admission webhooks see to it that each cluster has a token, which an agent must show.
--
-- Files and what they model:
--   Base       names shared by all: lists and Go maps (as association lists), texts, Go errors, and
--              `Outcome`, a call that returns, panics or runs out of fuel.
--   Api        pkg/apis/kopilot/register.go, pkg/apis/kopilot/v1alpha1/types.go; Api/DeepCopy is
--              zz_generated.deepcopy.go, over a heap of arrays; Api/Scheme is register.go and the
--              schemes that use it.
--   Session    pkg/hub/cluster/session_manager.go: `SessionManager`, `add_cluster_session` and
--              `dial_cluster`, whose loop is `dial`. Below it: Loop (induction on the loop),
--              Dialling, Failover, Isolation (histories of calls), Slices (the same methods over
--              slices that share arrays: `add_in_place`, `dial_in_place`), Interleaving (the same
--              methods statement by statement, under a mutex: `advance` and `Step`).
--   Http       what the handlers use of net/http and net/http/httputil, as those are documented:
--              the response writer, to which writes may fail, and `serve_http` of the reverse
--              proxy, with the forwarded header that it appends to, and the answers that it breaks
--              off with `http.ErrAbortHandler` where a body cannot be copied.
--   Hub        pkg/hub/config.go (Config), pkg/hub/cluster/subresources.go (Subresources: the
--              handlers `agent_handler`, `connect_handler`, `proxy_handler`), pkg/hub/peer/server.go
--              (Peer: `list_peers`, `try_next_peer`, `peer_handler`). Proxying and System put them
--              together: whole runs of the proxy, and a hub that serves requests one at a time, in
--              any order; Relaying/Meshing puts any number of hubs together, and Relaying/Losing
--              is about requests with a body. Concurrent has the same handlers as `Routine`s of
--              calls, and a hub whose requests run at once. Served is the registration of the
--              subresources (also cmd/kopilot-hub/main.go), Startup the set-up of the server for
--              peers.
--   Program    cmd/kopilot-hub/main.go: in Program/Clients up to the contexts, in Program from there
--              on, as steps of its goroutines; in Program/Whole with those of StartServer.
--   Server     the life of the servers in pkg/hub/peer/server.go and cmd/kopilot-agent/main.go, as
--              steps of two goroutines.
--   Webhook    pkg/webhook/cluster/mutator.go and validator.go; Webhook/Serving is
--              cmd/kopilot-webhook/main.go.
--   Agent      cmd/kopilot-agent/main.go up to the call of `Serve`.
--   Informers  pkg/client/informers/externalversions: factory.go, whose histories are in
--              Informers/Running, with any walk of the map; and in Informers/Groups generic.go,
--              kopilot/interface.go, kopilot/v1alpha1/interface.go and kopilot/v1alpha1/cluster.go.
--   Listers    pkg/client/listers/kopilot/v1alpha1/cluster.go.
--   Client     pkg/client/clientset/versioned/typed/kopilot/v1alpha1/cluster.go.
--   Clientset  pkg/client/clientset/versioned/clientset.go and
--              typed/kopilot/v1alpha1/kopilot_client.go in its directory.
--   Fake       the fake clients: pkg/client/clientset/versioned/fake/clientset_generated.go and
--              fake_kopilot_client.go and fake_cluster.go in
--              pkg/client/clientset/versioned/typed/kopilot/v1alpha1/fake.
--   Tests      runs at concrete inputs.
--
-- State is passed explicitly: a handler maps a response writer, a request, the session manager and
-- the world of all that is outside to an outcome. Third-party code (yamux, gorilla, client-go,
-- the file system, random numbers) is a field of a record of parameters: `Network`, `Env`, `Runtime`,
-- `AgentEnv`, `ClientGo`, `Cache`, `Rest`, `RestLibrary`, `KubeLibrary`, `Testing`, `SchemeLibrary`,
-- `Controller`, `Kube`. What is assumed of it stands among a theorem's hypotheses. Methods under a
-- mutex are one step each, but for Session/Interleaving, where the goroutines that call the session
-- manager run its statements in any interleaving. In Hub/Concurrent each call that a handler makes,
-- of the session manager or of the world, is one step.
--
-- Fuel: `dial` gets one unit more than there are sessions, as each round returns or drops one;
-- `try_next_peer` gets one more than there are peers, as each call takes the next.
--
-- Not modelled: log lines, repeated headers and those of a response, hop-by-hop headers, protocol
-- switches through a reverse proxy, the TLS options of the hub's transport to its peers, and
-- the YAML manifests.
pub mod Base
pub mod Api
pub mod Session
pub mod Http
pub mod Hub
pub mod Webhook
pub mod Server
pub mod Program
pub mod Informers
pub mod Client
pub mod Clientset
pub mod Fake
pub mod Listers
pub mod Agent
mod Tests
