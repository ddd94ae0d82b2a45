-- ===== src/Tests/Fakes.antt =====
-- The fake client over a fake that answers every action with the same objects. Labels are one text.
use kopilot.Base.{
  ◌≡◌, refl, ℕ, suc, String, [], ◌∷◌, false, none, some, ◌==◌, errorf, ok, done, panicked,
}
use kopilot.Api.{ClusterList}
use kopilot.Client.{ListOptions}
use kopilot.Fake.{Testing, FakeClusters, clusters_resource, get_fake}
use kopilot.Fake.Making.{FakeClientset, add_objects, new_simple_clientset}
use kopilot.Fake.Asking.{AsksAlike, FakeClusters-AsksAlike}
use kopilot.Tests.Demo.{kube, cluster}
use kopilot.Tests.Clients.{rest}

abbrev two_clusters : ClusterList kube
two_clusters = record {
  type_meta = tt;
  list_meta = 7;
  items = cluster ∷ record cluster { object_meta = "c2" } ∷ [];
}

-- Objects are lists; the tracker takes those that are not empty.
abbrev fake : Testing rest
fake = record {
  Object = ClusterList kube;
  Watch = ℕ;
  Fake = ℕ;
  Tracker = ℕ;
  Reactor = ℕ;
  Selector = String;
  Labels = String;
  invokes = λ fake action empty w. ((some two_clusters, none), suc w);
  invokes_watch = λ fake action w. ((some 1, none), suc w);
  as_cluster = λ l. none;
  as_cluster_list = λ l. some l;
  empty_type_meta = tt;
  extract_label = λ opts. some "c2";
  everything = "";
  matches = λ selector labels. selector == labels;
  labels = λ m. m;
  new_object_tracker = λ w. (0, w);
  tracker_add = λ o l w. elim l.items [ [] ↦ (some (errorf "empty"), w) | x ∷ xs ↦ (none, suc w) ];
  tracker_watch = λ o gvr ns w. (ok 3, w);
  object_reaction = λ o. o;
  new_fake = λ w. (5, w);
  add_reactor = λ fake verb resource reactor w. w;
  add_watch_reactor = λ fake verb reaction w. w;
  get_resource = λ action. clusters_resource;
  get_namespace = λ action. "a";
}

abbrev clientset : FakeClientset fake
clientset = record { fake = 5; discovery = record { fake = 5 }; tracker = 0 }

abbrev client : FakeClusters fake
client = record { kopilot = record { fake = 5 }; ns = "a" }

made_test : new_simple_clientset fake (two_clusters ∷ []) 0 ≡ done (clientset, 1)
unfolding new_simple_clientset add_objects
made_test = refl

abbrev options : ListOptions rest
options = record { timeout_seconds = none; watch = false; more = 0 }

-- A cluster is asked for, and a list comes.
panic_test : get_fake fake client "c1" 0 4 ≡ panicked
unfolding get_fake
panic_test = refl

refused_test : new_simple_clientset fake (record two_clusters { items = [] } ∷ []) 0 ≡ panicked
unfolding new_simple_clientset add_objects
refused_test = refl

FakeClusters-AsksAlike_example :
    AsksAlike fake clientset "a" "c1" cluster 0 options 1 2 3 "merge" "patch" 4 ("status" ∷ []) 9
FakeClusters-AsksAlike_example =
    FakeClusters-AsksAlike fake clientset "a" "c1" cluster 0 options 1 2 3 "merge" "patch" 4
      ("status" ∷ []) 9
