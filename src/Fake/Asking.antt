-- ===== src/Fake/Asking.antt =====
-- The fake client against the real one.
use kopilot.Base.{true, ◌≡◌, refl, String, List, [], Option, none, some}
use kopilot.Api.{Cluster}
use kopilot.Api.Scheme.{scheme_group_version}
use kopilot.Client.{
  Rest, ListOptions, RestRequest, Params, Body, get_options, list_options, create_options,
  update_options, patch_options, cluster, delete_options, patch_data, Verb, get, post, put, delete,
  patch, get_cluster, list_clusters, watch_clusters, create_cluster, update_cluster, delete_cluster,
  delete_collection, patch_cluster,
}
use kopilot.Fake.{
  Testing, Action, get_action, list_action, watch_action, create_action, update_action,
  delete_action, delete_collection_action, patch_subresource_action, GroupVersionResource,
  empty_cluster, empty_list, cluster_answer, list_answer, get_fake, list_fake, watch_fake,
  create_fake, update_fake, delete_fake, delete_collection_fake, patch_fake, FakeClusters,
  fake_clusters_of,
}
use kopilot.Fake.Making.{FakeClientset, fake_kopilot_of}

-- What an API server is asked to do, to which object and with what. Of the options only those of a
-- list are told apart: the fake client drops the others.
pub record Asked (g : Rest) : Type 0 where
  pub group : String
  pub version : String
  pub verb : Verb g
  pub namespace : String
  pub resource : String
  pub name : Option String
  pub subresources : List String
  pub list : Option (ListOptions g)
  pub object : Option (Cluster g.kube)
  pub payload : Option g.PatchData

abbrev list_of : {g : Rest} → Option (Params g) → Option (ListOptions g)
list_of (some (list_options opts)) = some opts
list_of (some (get_options opts)) = none
list_of (some (create_options opts)) = none
list_of (some (update_options opts)) = none
list_of (some (patch_options opts)) = none
list_of none = none

abbrev object_of : {g : Rest} → Option (Body g) → Option (Cluster g.kube)
object_of (some (cluster x)) = some x
object_of (some (delete_options opts)) = none
object_of (some (patch_data payload)) = none
object_of none = none

abbrev payload_of : {g : Rest} → Option (Body g) → Option g.PatchData
payload_of (some (patch_data payload)) = some payload
payload_of (some (cluster x)) = none
payload_of (some (delete_options opts)) = none
payload_of none = none

-- The real client sends to the group and version that its configuration names, which
-- `setConfigDefaults` sets.
abbrev pub asked_by : {g : Rest} → RestRequest g → Asked g
asked_by r = record {
  group = scheme_group_version.group;
  version = scheme_group_version.version;
  verb = r.verb;
  namespace = r.namespace;
  resource = r.resource;
  name = r.name;
  subresources = r.subresources;
  list = list_of r.params;
  object = object_of r.body;
  payload = payload_of r.body;
}

abbrev one :
    {g : Rest} → Verb g → GroupVersionResource → String → Option String → List String → Asked g
one verb gvr ns name subresources = record {
  group = gvr.group;
  version = gvr.version;
  verb = verb;
  namespace = ns;
  resource = gvr.resource;
  name = name;
  subresources = subresources;
  list = none;
  object = none;
  payload = none;
}

-- An action read as a request: the object's name is that of a REST path, and a watch is a list
-- with the option that asks for one.
unfoldable pub meaning : {g : Rest} → Action g → Asked g
meaning (get_action gvr ns name) = one get gvr ns (some name) []
meaning (delete_action gvr ns name) = one delete gvr ns (some name) []
meaning (list_action gvr kind ns opts) = record (one get gvr ns none []) { list = some opts }
meaning (watch_action gvr ns opts) = record (one get gvr ns none []) {
  list = some (record opts { watch = true });
}
meaning (delete_collection_action gvr ns opts) = record (one delete gvr ns none []) {
  list = some opts;
}
meaning (create_action gvr ns x) = record (one post gvr ns none []) { object = some x }
meaning {g} (update_action gvr ns x) =
    record (one put gvr ns (some (g.object_name x.object_meta)) []) { object = some x }
meaning (patch_subresource_action gvr ns name pt payload subs) =
    record (one (patch pt) gvr ns (some name) subs) { payload = some payload }

module _ {g : Rest} (t : Testing g) (cs : FakeClientset t) (ns : String) where
  open g use {
    World, kube, GetOptions, CreateOptions, UpdateOptions, DeleteOptions, PatchOptions, PatchType,
    PatchData,
  }
  open t use {invokes, invokes_watch}

  -- `cs.KopilotV1alpha1().Clusters(ns)`.
  abbrev pub clusters_in : FakeClusters t
  clusters_in = fake_clusters_of t (fake_kopilot_of t cs) ns

  -- For each method: there is an action that means what the real client's request asks for, and the
  -- method puts this action to the clientset's fake.
  abbrev pub AsksAlike :
      String
      → Cluster kube
      → GetOptions
      → ListOptions g
      → CreateOptions
      → UpdateOptions
      → DeleteOptions
      → PatchType
      → PatchData
      → PatchOptions
      → List String
      → World
      → Type 0
  AsksAlike name x o l c u d pt payload p subs w =
      ((a : Action g) × (meaning a ≡ asked_by (get_cluster g ns name o))
        × (get_fake t clusters_in name o w ≡ cluster_answer t (invokes cs.fake a empty_cluster w)))
      × ((a : Action g) × (meaning a ≡ asked_by (list_clusters g ns l))
          × (list_fake t clusters_in l w ≡ list_answer t l (invokes cs.fake a empty_list w)))
      × ((a : Action g) × (meaning a ≡ asked_by (watch_clusters g ns l))
          × (watch_fake t clusters_in l w ≡ invokes_watch cs.fake a w))
      × ((a : Action g) × (meaning a ≡ asked_by (create_cluster g ns x c))
          × (create_fake t clusters_in x c w
              ≡ cluster_answer t (invokes cs.fake a empty_cluster w)))
      × ((a : Action g) × (meaning a ≡ asked_by (update_cluster g ns x u))
          × (update_fake t clusters_in x u w
              ≡ cluster_answer t (invokes cs.fake a empty_cluster w)))
      × ((a : Action g) × (meaning a ≡ asked_by (delete_cluster g ns name d))
          × (delete_fake t clusters_in name d w
              ≡ ((invokes cs.fake a empty_cluster w).0.1, (invokes cs.fake a empty_cluster w).1)))
      × ((a : Action g) × (meaning a ≡ asked_by (delete_collection g ns d l))
          × (delete_collection_fake t clusters_in d l w
              ≡ ((invokes cs.fake a empty_list w).0.1, (invokes cs.fake a empty_list w).1)))
      × ((a : Action g) × (meaning a ≡ asked_by (patch_cluster g ns name pt payload p subs))
          × (patch_fake t clusters_in name pt payload p subs w
              ≡ cluster_answer t (invokes cs.fake a empty_cluster w)))

  -- Each method of the client that a fake clientset gives for a namespace puts one action to this
  -- clientset's own fake, and that asks for what the request of the real client's method asks for:
  -- the same verb on the same object and subresources in the same namespace, group and version, with the same cluster
  -- (create, update), patch, and list options (list, watch, delete collection).
  pub FakeClusters-AsksAlike :
      (name : String) (x : Cluster kube) (o : GetOptions) (l : ListOptions g) (c : CreateOptions)
      (u : UpdateOptions) (d : DeleteOptions) (pt : PatchType) (payload : PatchData)
      (p : PatchOptions) (subs : List String) (w : World)
      → AsksAlike name x o l c u d pt payload p subs w
  unfolding meaning fake_clusters_of fake_kopilot_of get_cluster list_clusters watch_clusters
      create_cluster update_cluster delete_cluster delete_collection patch_cluster get_fake
      list_fake watch_fake create_fake update_fake delete_fake delete_collection_fake patch_fake
  FakeClusters-AsksAlike name x o l c u d pt payload p subs w = (
    (_, refl, refl),
    (_, refl, refl),
    (_, refl, refl),
    (_, refl, refl),
    (_, refl, refl),
    (_, refl, refl),
    (_, refl, refl),
    (_, refl, refl),
  )
