-- ===== src/Informers/Scoping.antt =====
-- What the cluster informer of a filtered factory asks the API server for.
use kopilot.Base.{ℕ, ◌≡◌, refl, ap, String, some, true, lookup, ok}
use kopilot.Api.{group_name}
use kopilot.Client.{ListOptions, RestRequest, list_options, list_clusters, watch_clusters, get}
use kopilot.Informers.{
  ClientGo, Tweak, Factory, with_namespace, with_tweak_list_options, new_factory_with_options,
  new_filtered_factory, resync_period, informer_for,
}
use kopilot.Listers.{new_cluster_lister}
use kopilot.Informers.Sharing.{informer_for_again}
use kopilot.Informers.Groups.{
  new_group, new_version, v1alpha1, clusters, kopilot_of, new_filtered_cluster_informer,
  default_informer, cluster_informer, cluster_lister, for_resource,
}

module _ (g : ClientGo) where
  open g use {rest, Client, Informer, shared_index_informer, namespace_indexers, cache, get_indexer}

  -- The request is a GET of clusters in the namespace, with these list options.
  pub record Asks (namespace : String) (options : ListOptions rest) (r : RestRequest rest)
      : Type 0 where
    pub verb_eq : r.verb ≡ get
    pub namespace_eq : r.namespace ≡ namespace
    pub resource_eq : r.resource ≡ "clusters"
    pub params_eq : r.params ≡ some (list_options options)

  -- The generic informer for clusters of a factory that was made for a namespace and a filter lists
  -- and watches the clusters of that namespace only, with the options as the filter changes them;
  -- it resyncs after the factory's default.
  pub for_resource-Asks :
      (client : Client) (resync : ℕ) (namespace : String) (tweak : Tweak g)
      → (list watch : ListOptions rest → RestRequest rest) × ((for_resource g group_name "v1alpha1"
            "clusters"
            (new_filtered_factory g client resync namespace tweak)).0
          ≡ ok (record {
            informer = shared_index_informer client list watch resync namespace_indexers;
            resource = (group_name, "clusters");
          }))
        × ((options : ListOptions rest)
            → Asks namespace (tweak options) (list options)
              × Asks namespace (record (tweak options) { watch = true }) (watch options))
  unfolding for_resource new_group new_version v1alpha1 clusters kopilot_of cluster_informer
      informer_for default_informer new_filtered_cluster_informer new_filtered_factory
      with_namespace with_tweak_list_options new_factory_with_options resync_period list_clusters
      watch_clusters lookup
  for_resource-Asks client resync namespace tweak = (
    (λ options. list_clusters rest namespace (tweak options)),
    (λ options. watch_clusters rest namespace (tweak options)),
    refl,
    λ options. (
      record { verb_eq = refl; namespace_eq = refl; resource_eq = refl; params_eq = refl },
      record { verb_eq = refl; namespace_eq = refl; resource_eq = refl; params_eq = refl },
    ),
  )

  -- Whoever asks a factory for its generic informer of clusters, and afterwards takes a lister from
  -- the cluster informer of the same factory, by whatever settings that was got: the lister reads
  -- the cache of that same informer, and the factory is left as it was.
  for_resource-Shares :
      (f h : Factory g)
      → (informer : Informer) × ((for_resource g group_name "v1alpha1" "clusters" f).0
          ≡ ok (record { informer = informer; resource = (group_name, "clusters") }))
        × (cluster_lister g
              (clusters g (v1alpha1 g (kopilot_of g h)))
              (for_resource g group_name "v1alpha1" "clusters" f).1
            ≡ (
              new_cluster_lister cache (get_indexer informer),
              (for_resource g group_name "v1alpha1" "clusters" f).1,
            ))
  unfolding for_resource cluster_lister cluster_informer
  for_resource-Shares f h =
      let own = clusters g (v1alpha1 g (kopilot_of g f)) in
      let other = clusters g (v1alpha1 g (kopilot_of g h)) in
      (
        (cluster_informer g own f).0,
        refl,
        ap (λ (x : Informer × Factory g). (new_cluster_lister cache (get_indexer x.0), x.1))
            (informer_for_again g "*v1alpha1.Cluster" (default_informer g own)
              (default_informer g other) f),
      )
