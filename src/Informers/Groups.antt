-- ===== src/Informers/Groups.antt =====
-- The way from a factory to its informers and listers: `Kopilot` in factory.go, generic.go, and
-- kopilot/interface.go, kopilot/v1alpha1/interface.go and kopilot/v1alpha1/cluster.go. The values
-- on the way hold the factory by a pointer, so its state is passed on beside them.
use Prim.Native.String.{◌++◌}
use kopilot.Base.{ℕ, String, Option, none, some, if◌then◌else◌, ◌==◌, ◌&&◌, errorf, Result, ok, err}
use kopilot.Api.{group_name}
use kopilot.Client.{ListOptions, list_clusters, watch_clusters}
use kopilot.Listers.{ClusterLister, new_cluster_lister}
use kopilot.Informers.{ClientGo, Tweak, Factory, informer_for}

-- `group`, `version` and `clusterInformer`.
pub record Group (g : ClientGo) : Type 0 where
  pub namespace : String
  pub tweak_list_options : Option (Tweak g)

pub record Version (g : ClientGo) : Type 0 where
  pub namespace : String
  pub tweak_list_options : Option (Tweak g)

pub record ClusterInformer (g : ClientGo) : Type 0 where
  pub namespace : String
  pub tweak_list_options : Option (Tweak g)

-- `genericInformer`, with the group and the name of its resource.
pub record GenericInformer (g : ClientGo) : Type 0 where
  pub informer : g.Informer
  pub resource : String × String

module _ (g : ClientGo) where
  open g use {
    rest, Client, Informer, Indexers, namespace_indexers, shared_index_informer, cache, get_indexer,
    GenericLister, new_generic_lister, show_resource,
  }

  -- `New` of both packages, `V1alpha1` and `Clusters`.
  unfoldable pub new_group : String → Option (Tweak g) → Group g
  new_group namespace tweak = record { namespace = namespace; tweak_list_options = tweak }

  unfoldable pub new_version : String → Option (Tweak g) → Version g
  new_version namespace tweak = record { namespace = namespace; tweak_list_options = tweak }

  unfoldable pub v1alpha1 : Group g → Version g
  v1alpha1 i = new_version i.namespace i.tweak_list_options

  unfoldable pub clusters : Version g → ClusterInformer g
  clusters v = record { namespace = v.namespace; tweak_list_options = v.tweak_list_options }

  -- `(*sharedInformerFactory).Kopilot`.
  unfoldable pub kopilot_of : Factory g → Group g
  kopilot_of f = new_group f.namespace f.tweak_list_options

  -- `if tweakListOptions != nil { tweakListOptions(&options) }`.
  abbrev pub tweaked : Option (Tweak g) → ListOptions rest → ListOptions rest
  tweaked none options = options
  tweaked (some tweak) options = tweak options

  -- `NewFilteredClusterInformer` and `NewClusterInformer`.
  unfoldable pub new_filtered_cluster_informer :
      Client → String → ℕ → Indexers → Option (Tweak g) → Informer
  new_filtered_cluster_informer client namespace resync indexers tweak =
      shared_index_informer client (λ options. list_clusters rest namespace (tweaked tweak options))
        (λ options. watch_clusters rest namespace (tweaked tweak options)) resync indexers

  unfoldable pub new_cluster_informer : Client → String → ℕ → Indexers → Informer
  new_cluster_informer client namespace resync indexers =
      new_filtered_cluster_informer client namespace resync indexers none

  -- `(*clusterInformer).defaultInformer`, which the factory calls.
  unfoldable pub default_informer : ClusterInformer g → Client → ℕ → Informer
  default_informer i client resync =
      new_filtered_cluster_informer client i.namespace resync namespace_indexers
        i.tweak_list_options

  -- `(*clusterInformer).Informer` and `Lister`.
  unfoldable pub cluster_informer : ClusterInformer g → Factory g → Informer × Factory g
  cluster_informer i f = informer_for g "*v1alpha1.Cluster" (default_informer i) f

  unfoldable pub cluster_lister : ClusterInformer g → Factory g → ClusterLister cache × Factory g
  cluster_lister i f =
      let (informer, f') = cluster_informer i f in
      (new_cluster_lister cache (get_indexer informer), f')

  -- `(*genericInformer).Lister`.
  unfoldable pub generic_lister : GenericInformer g → GenericLister
  generic_lister i = new_generic_lister (get_indexer i.informer) i.resource

  -- `(*sharedInformerFactory).ForResource`.
  unfoldable pub for_resource :
      String → String → String → Factory g → Result (GenericInformer g) × Factory g
  for_resource group version resource f =
      if group == group_name && (version == "v1alpha1" && resource == "clusters")
      then (let (informer, f') = cluster_informer (clusters (v1alpha1 (kopilot_of f))) f in
          (ok (record { informer = informer; resource = (group, resource) }), f'))
      else (err (errorf ("no informer found for " ++ (show_resource group version resource))), f)
