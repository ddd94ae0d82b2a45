-- ===== src/Listers.antt =====
-- pkg/client/listers/kopilot/v1alpha1/cluster.go: the listers, which read clusters from the cache
-- of an informer.
pub mod Reading
use Prim.Native.String.{◌++◌}
use kopilot.Base.{
  String, List, [], ◌∷◌, Option, none, some, Error, Result, ok, err, Outcome, done, panicked,
}
use kopilot.Base
use kopilot.Api.{Kube, Cluster}

-- What client-go supplies. An indexer holds objects of any type.
pub record Cache : Type 1 where
  pub kube : Kube
  pub Indexer : Type 0
  pub Selector : Type 0
  pub Object : Type 0
  -- `obj.(*v1alpha1.Cluster)`, which panics on an object of another type.
  pub as_cluster : Object → Option (Cluster kube)
  -- `cache.ListAll` and `cache.ListAllByNamespace`, which call a function on objects; what it
  -- changes is the list of clusters found so far.
  pub list_all :
      Indexer
      → Selector
      → (Object → List (Cluster kube) → Outcome (List (Cluster kube)))
      → List (Cluster kube)
      → Outcome (List (Cluster kube) × Option Error)
  pub list_all_by_namespace :
      Indexer
      → String
      → Selector
      → (Object → List (Cluster kube) → Outcome (List (Cluster kube)))
      → List (Cluster kube)
      → Outcome (List (Cluster kube) × Option Error)
  -- `(cache.Indexer).GetByKey`, and `errors.NewNotFound` for the resource of a name.
  pub get_by_key : Indexer → String → Result (Option Object)
  pub new_not_found : String → String → Error

pub record ClusterLister (c : Cache) : Type 0 where
  pub indexer : c.Indexer

pub record ClusterNamespaceLister (c : Cache) : Type 0 where
  pub indexer : c.Indexer
  pub namespace : String

module _ (c : Cache) where
  open c use {
    kube, Indexer, Selector, Object, as_cluster, list_all, list_all_by_namespace, get_by_key,
    new_not_found,
  }

  unfoldable pub new_cluster_lister : Indexer → ClusterLister c
  new_cluster_lister indexer = record { indexer = indexer }

  -- `ret = append(ret, m.(*v1alpha1.Cluster))`.
  unfoldable pub append_cluster : Object → List (Cluster kube) → Outcome (List (Cluster kube))
  append_cluster m ret = elim (as_cluster m) [
    | none ↦ panicked
    | some x ↦ done (Base.◌++◌ ret (x ∷ []))
  ]

  -- `(*clusterLister).List` and `Clusters`.
  unfoldable pub list : ClusterLister c → Selector → Outcome (List (Cluster kube) × Option Error)
  list s selector = list_all s.indexer selector append_cluster []

  unfoldable pub clusters : ClusterLister c → String → ClusterNamespaceLister c
  clusters s namespace = record { indexer = s.indexer; namespace = namespace }

  -- `clusterNamespaceLister.List` and `Get`.
  unfoldable pub list_in_namespace :
      ClusterNamespaceLister c → Selector → Outcome (List (Cluster kube) × Option Error)
  list_in_namespace s selector =
      list_all_by_namespace s.indexer s.namespace selector append_cluster []

  unfoldable pub get : ClusterNamespaceLister c → String → Outcome (Result (Cluster kube))
  get s name = elim (get_by_key s.indexer (s.namespace ++ ("/" ++ name))) [
    | err er ↦ done (err er)
    | ok none ↦ done (err (new_not_found "cluster" name))
    | ok (some obj) ↦ elim (as_cluster obj) [ none ↦ panicked | some x ↦ done (ok x) ]
  ]
