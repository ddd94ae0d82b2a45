-- ===== src/Client.antt =====
-- pkg/client/clientset/versioned/typed/kopilot/v1alpha1/cluster.go: the typed client of the cluster
-- resource, as the requests that it builds for the REST client.
pub mod Requests
use kopilot.Base.{
  ℕ, ◌*◌, ◌%◌, ◌^◌, String, List, [], ◌∷◌, Bool, true, Option, none, some, Error, Result,
}
use kopilot.Api.{Kube, Cluster, ClusterList}

-- What client-go and apimachinery supply. Of `ListOptions` only two fields are used here.
pub record Rest : Type 1 where
  pub kube : Kube
  pub World : Type 0
  pub object_name : kube.ObjectMeta → String
  pub GetOptions : Type 0
  pub MoreListOptions : Type 0
  pub CreateOptions : Type 0
  pub UpdateOptions : Type 0
  pub DeleteOptions : Type 0
  pub PatchOptions : Type 0
  pub PatchType : Type 0
  pub PatchData : Type 0

pub record ListOptions (g : Rest) : Type 0 where
  -- An int64, as its bit pattern.
  pub timeout_seconds : Option ℕ
  pub watch : Bool
  pub more : g.MoreListOptions

pub data Verb (g : Rest) : Type 0 where
  get post put delete : Verb g
  patch : g.PatchType → Verb g

pub data Params (g : Rest) : Type 0 where
  get_options : g.GetOptions → Params g
  list_options : ListOptions g → Params g
  create_options : g.CreateOptions → Params g
  update_options : g.UpdateOptions → Params g
  patch_options : g.PatchOptions → Params g

pub data Body (g : Rest) : Type 0 where
  cluster : Cluster g.kube → Body g
  delete_options : g.DeleteOptions → Body g
  patch_data : g.PatchData → Body g

-- A `rest.Request` as its builder leaves it. The timeout is a `time.Duration`, an int64.
pub record RestRequest (g : Rest) : Type 0 where
  pub verb : Verb g
  pub namespace : String
  pub resource : String
  pub name : Option String
  pub subresources : List String
  pub params : Option (Params g)
  pub timeout : Option ℕ
  pub body : Option (Body g)

-- `time.Duration(*s) * time.Second` on int64.
unfoldable pub duration_of_seconds : ℕ → ℕ
duration_of_seconds s = s * 1_000_000_000 % 2 ^ 64

-- `var timeout time.Duration; if opts.TimeoutSeconds != nil { … }`.
unfoldable pub list_timeout : Option ℕ → ℕ
unfolding duration_of_seconds
list_timeout none = 0
list_timeout (some s) = duration_of_seconds s

-- `clusters` with its namespace; `client` is the world's.
module _ (g : Rest) (ns : String) where
  open g use {
    kube, object_name, GetOptions, CreateOptions, UpdateOptions, DeleteOptions, PatchOptions,
    PatchType, PatchData,
  }

  -- `c.client.Verb().Namespace(c.ns).Resource("clusters")`.
  abbrev base : Verb g → RestRequest g
  base verb = record {
    verb = verb;
    namespace = ns;
    resource = "clusters";
    name = none;
    subresources = [];
    params = none;
    timeout = none;
    body = none;
  }

  unfoldable pub get_cluster : String → GetOptions → RestRequest g
  get_cluster name options = record (base get) {
    name = some name;
    params = some (get_options options);
  }

  unfoldable pub list_clusters : ListOptions g → RestRequest g
  list_clusters opts = record (base get) {
    params = some (list_options opts);
    timeout = some (list_timeout opts.timeout_seconds);
  }

  unfoldable pub watch_clusters : ListOptions g → RestRequest g
  watch_clusters opts = record (base get) {
    params = some (list_options (record opts { watch = true }));
    timeout = some (list_timeout opts.timeout_seconds);
  }

  unfoldable pub create_cluster : Cluster kube → CreateOptions → RestRequest g
  create_cluster x opts = record (base post) {
    params = some (create_options opts);
    body = some (cluster x);
  }

  unfoldable pub update_cluster : Cluster kube → UpdateOptions → RestRequest g
  update_cluster x opts = record (base put) {
    name = some (object_name x.object_meta);
    params = some (update_options opts);
    body = some (cluster x);
  }

  unfoldable pub delete_cluster : String → DeleteOptions → RestRequest g
  delete_cluster name opts = record (base delete) {
    name = some name;
    body = some (delete_options opts);
  }

  unfoldable pub delete_collection : DeleteOptions → ListOptions g → RestRequest g
  delete_collection opts list_opts = record (base delete) {
    params = some (list_options list_opts);
    timeout = some (list_timeout list_opts.timeout_seconds);
    body = some (delete_options opts);
  }

  unfoldable pub patch_cluster :
      String → PatchType → PatchData → PatchOptions → List String → RestRequest g
  patch_cluster name pt payload opts subresources = record (base (patch pt)) {
    name = some name;
    subresources = subresources;
    params = some (patch_options opts);
    body = some (patch_data payload);
  }
