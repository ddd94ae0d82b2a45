-- ===== src/Client/Requests.antt =====
-- What the requests of the typed client ask for, and how long they wait.
use kopilot.Base.{ℕ, ◌*◌, ◌^◌, ◌<◌, ◌≤◌, ◌≡◌, ap, ◌∙◌, String, some, arith}
use kopilot.Client.{
  Rest, ListOptions, list_timeout, list_clusters, watch_clusters, delete_collection,
}

-- A list, a watch and a deletion of many that are given a number of seconds up to 9223372036 wait
-- for so many seconds in nanoseconds, which an int64 holds.
pub list_timeout-fits :
    (g : Rest) (ns : String) (opts : ListOptions g) (more : g.DeleteOptions) (s : ℕ)
    → opts.timeout_seconds ≡ some s
    → s ≤ 9_223_372_036
    → ((list_clusters g ns opts).timeout ≡ some (s * 1_000_000_000))
      × ((watch_clusters g ns opts).timeout ≡ some (s * 1_000_000_000))
      × ((delete_collection g ns more opts).timeout ≡ some (s * 1_000_000_000))
      × (s * 1_000_000_000 < 2 ^ 63)
unfolding list_clusters watch_clusters delete_collection list_timeout
list_timeout-fits g ns opts more s given low =
    let e : list_timeout opts.timeout_seconds ≡ s * 1_000_000_000 =
      ap list_timeout given ∙ (omega arith) in
    (ap some e, ap some e, ap some e, omega arith)
