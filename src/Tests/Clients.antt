-- ===== src/Tests/Clients.antt =====
-- The typed client, the informers and the listers over small parameters.
use Prim.Native.String.{◌++◌}
use mathlib.Core.List.{Permᴰ}
use mathlib.Core.List.Permᴰ
use kopilot.Base.{
  lookup, insert, ◌++◌ as append, ◌≡◌, refl, ℕ, ◌*◌, ◌^◌, ◌<◌, String, [], ◌∷◌, true, false, none,
  some, errorf, ok, if◌then◌else◌, arith, List, ◌↔◌, done, panicked, ◌==◌,
}
use kopilot.Informers.{
  ClientGo, Factory, new_factory_with_options, new_filtered_factory, informer_for, resync_period,
  start_along, start_loop, is_set,
}
use kopilot.Informers.Groups.{
  generic_lister, new_cluster_informer, new_filtered_cluster_informer, for_resource,
}
use kopilot.Informers.Running.{
  Reach, makes, steps, asks, starts_along, started, all_informers, start_along-RunsOnce,
}
use kopilot.Informers.Scoping.{Asks, for_resource-Asks}
use kopilot.Api.{Cluster, group_name}
use kopilot.Listers
use kopilot.Listers.{Cache, new_cluster_lister, list, clusters, list_in_namespace}
use kopilot.Listers.Reading.{visit, Visits, get_iff}
use kopilot.Client.{
  Rest, RestRequest, ListOptions, list_clusters, watch_clusters, delete_collection,
}
use kopilot.Client.Requests.{list_timeout-fits}
use kopilot.Tests.Demo.{kube, cluster}

abbrev pub rest : Rest
rest = record {
  kube = kube;
  World = ℕ;
  object_name = λ m. m;
  GetOptions = ℕ;
  MoreListOptions = ℕ;
  CreateOptions = ℕ;
  UpdateOptions = ℕ;
  DeleteOptions = ℕ;
  PatchOptions = ℕ;
  PatchType = String;
  PatchData = String;
}

-- A cache of clusters alone, keyed as one text.
abbrev cache : Cache
cache = record {
  kube = kube;
  Indexer = List (Cluster kube);
  Selector = Unit {0};
  Object = Cluster kube;
  as_cluster = λ x. some x;
  list_all = λ ix sel fn ret. visit fn ix ret;
  list_all_by_namespace = λ ix ns sel fn ret. visit fn ix ret;
  get_by_key = λ ix k. ok (if k == "a/c1" then some cluster else none);
  new_not_found = λ resource name. errorf name;
}

abbrev client_go : ClientGo
client_go = record {
  rest = rest;
  Client = ℕ;
  Informer = ℕ × ℕ;
  Indexers = ℕ;
  namespace_indexers = 0;
  shared_index_informer = λ client list watch resync indexers. (client, resync);
  cache = cache;
  get_indexer = λ informer. [];
  GenericLister = String × String;
  new_generic_lister = λ indexer resource. resource;
  wait_for_cache_sync = λ informer. true;
  show_resource = λ g v r. g ++ ("/" ++ (v ++ (", Resource=" ++ r)));
}

abbrev factory : Factory client_go
factory = record {
  client = 7;
  namespace = "";
  tweak_list_options = none;
  default_resync = 30;
  custom_resync = [];
  informers = ("*v1alpha1.Cluster", (7, 30)) ∷ [];
  started_informers = [];
}

abbrev no_tweak : ListOptions rest → ListOptions rest
no_tweak options = options

for_resource-Asks_example :
    (list watch : ListOptions rest → RestRequest rest) × ((for_resource client_go group_name
        "v1alpha1" "clusters"
        (new_filtered_factory client_go 7 30 "a" no_tweak)).0
      ≡ ok (record { informer = (7, 30); resource = (group_name, "clusters") }))
    × ((options : ListOptions rest)
        → Asks client_go "a" options (list options)
          × Asks client_go "a" (record options { watch = true }) (watch options))
for_resource-Asks_example = for_resource-Asks client_go 7 30 "a" no_tweak

-- Two types, of which the second is asked for after a first `Start`; the second walks the map in
-- the other order.
abbrev asked_cluster : Factory client_go
asked_cluster =
    (informer_for client_go "*v1alpha1.Cluster" (λ c resync. (c, resync))
      (new_factory_with_options client_go 7 30 [])).1

abbrev asked_config : Factory client_go
asked_config =
    (informer_for client_go "*v1alpha1.Config" (λ c resync. (c, 60))
      (start_along client_go (("*v1alpha1.Cluster", (7, 30)) ∷ []) asked_cluster).1).1

running_Reach : Reach client_go (asked_config, (7, 30) ∷ [])
unfolding informer_for start_along start_loop new_factory_with_options resync_period lookup insert
    is_set
running_Reach =
    steps
      (steps (steps (makes 7 30 [] tt) (asks "*v1alpha1.Cluster" (λ c resync. (c, resync))))
        (starts_along (("*v1alpha1.Cluster", (7, 30)) ∷ []) (Permᴰ.refl _)))
      (asks "*v1alpha1.Config" (λ c resync. (c, 60)))

start_along-RunsOnce_example :
    Permᴰ ((7, 30) ∷ []) (started client_go asked_config)
    × ((walk : List (String × (ℕ × ℕ)))
        → Permᴰ walk asked_config.informers
        → Permᴰ
            (append ((7, 30) ∷ []) (start_along client_go walk asked_config).0)
            (all_informers client_go asked_config))
start_along-RunsOnce_example = start_along-RunsOnce client_go running_Reach

abbrev list_options : ListOptions rest
list_options = record { timeout_seconds = some 60; watch = false; more = 0 }

list_timeout-fits_example :
    ((list_clusters rest "a" list_options).timeout ≡ some (60 * 1_000_000_000))
    × ((watch_clusters rest "a" list_options).timeout ≡ some (60 * 1_000_000_000))
    × ((delete_collection rest "a" 0 list_options).timeout ≡ some (60 * 1_000_000_000))
    × (60 * 1_000_000_000 < 2 ^ 63)
list_timeout-fits_example = list_timeout-fits rest "a" list_options 0 60 refl (omega arith)

abbrev cache_visits : Visits cache
cache_visits = record {
  matching = λ ix sel. ix;
  matching_in = λ ix ns sel. ix;
  list_all_eq = λ ix sel fn ret. refl;
  list_all_by_namespace_eq = λ ix ns sel fn ret. refl;
}

get_iff_example :
    ((x : Cluster kube)
      → (Listers.get cache (clusters cache (new_cluster_lister cache []) "a") "c1" ≡ done (ok x))
        ↔ ((obj : Cluster kube) × (cache.get_by_key [] ("a" ++ ("/" ++ "c1")) ≡ ok (some obj))
            × (cache.as_cluster obj ≡ some x)))
    × ((Listers.get cache (clusters cache (new_cluster_lister cache []) "a") "c1" ≡ panicked) ↔ (
        (obj : Cluster kube) × (cache.get_by_key [] ("a" ++ ("/" ++ "c1")) ≡ ok (some obj))
        × (cache.as_cluster obj ≡ none)))
get_iff_example = get_iff cache [] "a" "c1"

generic_lister_test :
    generic_lister client_go (record { informer = (7, 30); resource = (group_name, "clusters") })
    ≡ (group_name, "clusters")
unfolding generic_lister
generic_lister_test = refl

unfiltered_test : new_cluster_informer client_go 7 "a" 30 0 ≡ (7, 30)
unfolding new_cluster_informer new_filtered_cluster_informer
unfiltered_test = refl
