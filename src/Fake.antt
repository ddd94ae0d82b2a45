-- ===== src/Fake.antt =====
-- The fake clients for tests of callers, in pkg/client/clientset/versioned:
-- fake/clientset_generated.go, and in typed/kopilot/v1alpha1/fake fake_kopilot_client.go and
-- fake_cluster.go. They hand actions to `testing.Fake` of client-go, over its object tracker.
pub mod Asking
pub mod Filtering
pub mod Making
use kopilot.Base.{
  String, List, [], ◌∷◌, ◌++◌, Bool, true, false, Option, none, some, if◌then◌else◌, Error, Result,
  ok, err, Outcome, done, panicked, ◌>>=◌,
}
use kopilot.Api.{Cluster, ClusterList}
use kopilot.Client.{Rest, ListOptions}

-- `schema.GroupVersionResource`, and with a kind in the place of a resource `GroupVersionKind`.
pub record GroupVersionResource : Type 0 where
  pub group : String
  pub version : String
  pub resource : String

abbrev pub clusters_resource : GroupVersionResource
clusters_resource = record {
  group = "kopilot.smartx.com";
  version = "v1alpha1";
  resource = "clusters";
}

abbrev pub clusters_kind : GroupVersionResource
clusters_kind = record { group = "kopilot.smartx.com"; version = "v1alpha1"; resource = "Cluster" }

-- The actions of client-go's package testing that its constructors make, with their arguments.
pub data Action (g : Rest) : Type 0 where
  get_action delete_action : GroupVersionResource → String → String → Action g
  list_action : GroupVersionResource → GroupVersionResource → String → ListOptions g → Action g
  watch_action delete_collection_action : GroupVersionResource → String → ListOptions g → Action g
  create_action update_action : GroupVersionResource → String → Cluster g.kube → Action g
  patch_subresource_action :
      GroupVersionResource → String → String → g.PatchType → g.PatchData → List String → Action g

-- The object that `Invokes` is given for its type: `&v1alpha1.Cluster{}` or
-- `&v1alpha1.ClusterList{}`.
pub data Default : Type 0 where
  empty_cluster empty_list : Default

-- What client-go and apimachinery supply. `World` holds the tracker and the actions so far.
pub record Testing (g : Rest) : Type 1 where
  pub Object : Type 0
  pub Watch : Type 0
  -- Pointers to a `testing.Fake` and to an object tracker.
  pub Fake : Type 0
  pub Tracker : Type 0
  pub Reactor : Type 0
  pub Selector : Type 0
  pub Labels : Type 0
  -- `(*testing.Fake).Invokes` and `InvokesWatch`; both results may be set, or neither.
  pub invokes : Fake → Action g → Default → g.World → (Option Object × Option Error) × g.World
  pub invokes_watch : Fake → Action g → g.World → (Option Watch × Option Error) × g.World
  -- `obj.(*v1alpha1.Cluster)` and `obj.(*v1alpha1.ClusterList)`.
  pub as_cluster : Object → Option (Cluster g.kube)
  pub as_cluster_list : Object → Option (ClusterList g.kube)
  pub empty_type_meta : g.kube.TypeMeta
  -- The label selector of `testing.ExtractFromListOptions`, and package labels.
  pub extract_label : ListOptions g → Option Selector
  pub everything : Selector
  pub matches : Selector → Labels → Bool
  pub labels : g.kube.ObjectMeta → Labels
  -- `NewObjectTracker`, its `Add` and `Watch`, and `testing.ObjectReaction` of it.
  pub new_object_tracker : g.World → Tracker × g.World
  pub tracker_add : Tracker → Object → g.World → Option Error × g.World
  pub tracker_watch : Tracker → GroupVersionResource → String → g.World → Result Watch × g.World
  pub object_reaction : Tracker → Reactor
  -- A new `testing.Fake`, and `AddReactor` and `AddWatchReactor` of one, for a verb and a resource.
  pub new_fake : g.World → Fake × g.World
  pub add_reactor : Fake → String → String → Reactor → g.World → g.World
  pub add_watch_reactor :
      Fake
      → String
      → (Action g → g.World → (Bool × Option Watch × Option Error) × g.World)
      → g.World
      → g.World
  -- `action.GetResource` and `action.GetNamespace`.
  pub get_resource : Action g → GroupVersionResource
  pub get_namespace : Action g → String

module _ {g : Rest} (t : Testing g) where
  open g use {
    World, kube, GetOptions, CreateOptions, UpdateOptions, DeleteOptions, PatchOptions, PatchType,
    PatchData,
  }
  open t use {
    Object, Watch, Fake, Selector, invokes, invokes_watch, as_cluster, as_cluster_list,
    empty_type_meta, extract_label, everything, matches, labels,
  }

  abbrev pub Answered : Type 0
  Answered = Outcome ((Option (Cluster kube) × Option Error) × World)

  -- `if obj == nil { return nil, err }; return obj.(*v1alpha1.Cluster), err`.
  abbrev pub cluster_answer : (Option Object × Option Error) × World → Answered
  cluster_answer ((none, er), w) = done ((none, er), w)
  cluster_answer ((some obj, er), w) = elim (as_cluster obj) [
    | none ↦ panicked
    | some x ↦ done ((some x, er), w)
  ]

  -- The loop over the items of the tracker's list, which appends to the list so far.
  unfoldable pub append_matching :
      Selector → List (Cluster kube) → List (Cluster kube) → List (Cluster kube)
  append_matching label [] items = items
  append_matching label (item ∷ rest) items =
      append_matching label rest
        (if matches label (labels item.object_meta) then items ++ item ∷ [] else items)

  -- `label == nil`.
  abbrev pub label_of : ListOptions g → Selector
  label_of opts = elim (extract_label opts) [ none ↦ everything | some label ↦ label ]

  unfoldable pub list_answer :
      ListOptions g
      → (Option Object × Option Error) × World
      → Outcome ((Option (ClusterList kube) × Option Error) × World)
  unfolding append_matching
  list_answer opts ((none, er), w) = done ((none, er), w)
  list_answer opts ((some obj, er), w) = elim (as_cluster_list obj) [
    | none ↦ panicked
    | some l ↦ done (
      (
        some (record {
          type_meta = empty_type_meta;
          list_meta = l.list_meta;
          items = append_matching (label_of opts) l.items [];
        }),
        er,
      ),
      w,
    )
  ]

  -- `FakeKopilotV1alpha1`, and `FakeClusters` with its namespace.
  pub record FakeKopilot : Type 0 where
    pub fake : Fake

  pub record FakeClusters : Type 0 where
    pub kopilot : FakeKopilot
    pub ns : String

  -- `(*FakeKopilotV1alpha1).Clusters`, and `RESTClient`, which is a nil pointer.
  unfoldable pub fake_clusters_of : FakeKopilot → String → FakeClusters
  fake_clusters_of c namespace = record { kopilot = c; ns = namespace }

  unfoldable pub fake_rest_client : {RestClient : Type 0} → FakeKopilot → Option RestClient
  fake_rest_client c = none

  -- The methods of `FakeClusters`. Options that the code drops are arguments all the same.
  module _ (c : FakeClusters) where
    unfoldable pub get_fake : String → GetOptions → World → Answered
    get_fake name options w =
        cluster_answer
          (invokes c.kopilot.fake (get_action clusters_resource c.ns name) empty_cluster w)

    unfoldable pub list_fake :
        ListOptions g → World → Outcome ((Option (ClusterList kube) × Option Error) × World)
    list_fake opts w = list_answer opts (
        invokes c.kopilot.fake (list_action clusters_resource clusters_kind c.ns opts) empty_list w)

    unfoldable pub watch_fake : ListOptions g → World → (Option Watch × Option Error) × World
    watch_fake opts w = invokes_watch c.kopilot.fake (watch_action clusters_resource c.ns opts) w

    unfoldable pub create_fake : Cluster kube → CreateOptions → World → Answered
    create_fake x opts w =
        cluster_answer
          (invokes c.kopilot.fake (create_action clusters_resource c.ns x) empty_cluster w)

    unfoldable pub update_fake : Cluster kube → UpdateOptions → World → Answered
    update_fake x opts w =
        cluster_answer
          (invokes c.kopilot.fake (update_action clusters_resource c.ns x) empty_cluster w)

    unfoldable pub delete_fake : String → DeleteOptions → World → Option Error × World
    delete_fake name opts w =
        let ((obj, er), w') =
          invokes c.kopilot.fake (delete_action clusters_resource c.ns name) empty_cluster w in
        (er, w')

    unfoldable pub delete_collection_fake :
        DeleteOptions → ListOptions g → World → Option Error × World
    delete_collection_fake opts list_opts w =
        let ((obj, er), w') =
          invokes c.kopilot.fake (delete_collection_action clusters_resource c.ns list_opts)
            empty_list w in
        (er, w')

    unfoldable pub patch_fake :
        String → PatchType → PatchData → PatchOptions → List String → World → Answered
    patch_fake name pt payload opts subresources w = cluster_answer (
        invokes c.kopilot.fake
          (patch_subresource_action clusters_resource c.ns name pt payload subresources)
          empty_cluster w)
