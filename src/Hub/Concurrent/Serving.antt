-- ===== src/Hub/Concurrent/Serving.antt =====
-- What the handlers of the hub share, as routines.
use Prim.Native.String.{◌++◌}
use kopilot.Base.{String, Option, none, some, if◌then◌else◌, ◌==◌, Error, Result, ok, err}
use kopilot.Api.{Cluster, NamespacedName}
use kopilot.Http.{
  Request, Response, Writer, http_error, query_get, close_body, forwarded, copy_response,
}
use kopilot.Hub.{Env, is_not_found}
use kopilot.Hub.Concurrent.{Routine, answers, ◌>>=◌, ask}

abbrev pub Service : Env → Type 0
Service e = Writer → Request → Routine e Writer

-- `httputil.ReverseProxy` over routines.
pub record RoutineProxy (e : Env) : Type 0 where
  pub director : Request → Request
  pub transport : Request → Routine e (Result Response)
  pub modify_response : Response → Option Error
  pub error_handler : Writer → Request → Error → Routine e Writer

module _ (e : Env) where
  open e use {get_cluster, quote}

  -- `ServeHTTP` behind the transport.
  unfoldable pub relay : RoutineProxy e → Writer → Request → Result Response → Routine e Writer
  relay rp w out (err er) = rp.error_handler w (record out { body = close_body out.body }) er
  relay rp w out (ok resp) = elim (rp.modify_response resp) [
    | some er ↦ rp.error_handler w (record out { body = close_body out.body }) er
    | none ↦ answers (copy_response resp w)
  ]

  unfoldable pub serve : RoutineProxy e → Service e
  unfolding relay
  serve rp w r = let out = forwarded (rp.director r) in rp.transport out >>= relay rp w out

  -- The lookup with which the handlers begin.
  unfoldable pub found_cluster :
      (Cluster e.kube → Service e) → Writer → Request → Result (Cluster e.kube) → Routine e Writer
  found_cluster body w r (err er) = answers (
      if is_not_found er
      then http_error "Not Found" 404 w
      else http_error ("failed to get cluster: " ++ er.text) 500 w)
  found_cluster body w r (ok cluster) = body cluster w r

  unfoldable pub looks_up : NamespacedName → (Cluster e.kube → Service e) → Service e
  unfolding found_cluster
  looks_up key body w r = ask (get_cluster key.namespace key.name) >>= found_cluster body w r

  unfoldable pub checks_token : (String → Service e) → Cluster e.kube → Service e
  checks_token body cluster w r =
      let token = query_get r "token" in
      if token == cluster.token then body token w r else answers (http_error "Unauthorized" 401 w)
