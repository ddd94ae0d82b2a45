-- ===== src/Informers.antt =====
-- pkg/client/informers/externalversions: the factory that shares one informer among all who ask
-- for the same type. A Go type is its name; each method holds the factory's lock throughout, so a
-- call is one step. A map is walked in the order of its list: Go leaves the order open.
mod Walking
mod Noting
pub mod Groups
pub mod Sharing
pub mod Scoping
pub mod Running
use Prim.Native.String.{◌++◌}
use kopilot.Base.{
  ℕ, String, List, [], ◌∷◌, Bool, true, false, Option, none, some, Table, lookup, insert,
  if◌then◌else◌, ◌==◌, ◌&&◌, Error, errorf, Result, ok, err,
}
use kopilot.Api.{group_name}
use kopilot.Client.{Rest, ListOptions, RestRequest}
use kopilot.Listers.{Cache}

-- What client-go supplies: the REST client, how a shared informer is made of its client, its list
-- and watch functions, the resync period and the indexers, and whether one has synced when a wait
-- for it ends.
pub record ClientGo : Type 1 where
  pub rest : Rest
  pub Client : Type 0
  pub Informer : Type 0
  pub Indexers : Type 0
  -- `cache.Indexers{cache.NamespaceIndex: cache.MetaNamespaceIndexFunc}`.
  pub namespace_indexers : Indexers
  -- `cache.NewSharedIndexInformer` for clusters.
  pub shared_index_informer :
      Client
      → (ListOptions rest → RestRequest rest)
      → (ListOptions rest → RestRequest rest)
      → ℕ
      → Indexers
      → Informer
  -- `GetIndexer`, for the listers over an informer's cache, and `cache.NewGenericLister`.
  pub cache : Cache
  pub get_indexer : Informer → cache.Indexer
  pub GenericLister : Type 0
  pub new_generic_lister : cache.Indexer → String × String → GenericLister
  pub wait_for_cache_sync : Informer → Bool
  -- `fmt`'s `%v` of a group, version and resource.
  pub show_resource : String → String → String → String

-- `TweakListOptionsFunc`, as what it makes of the options that it is given.
abbrev pub Tweak : ClientGo → Type 0
Tweak g = ListOptions g.rest → ListOptions g.rest

-- `sharedInformerFactory`.
pub record Factory (g : ClientGo) : Type 0 where
  pub client : g.Client
  pub namespace : String
  pub tweak_list_options : Option (Tweak g)
  pub default_resync : ℕ
  pub custom_resync : Table ℕ
  pub informers : Table g.Informer
  pub started_informers : Table Bool

-- A key of a Go map of Booleans that is missing reads as false.
unfoldable pub is_set : String → Table Bool → Bool
is_set k m = elim (lookup k m) [ none ↦ false | some b ↦ b ]

module _ (g : ClientGo) where
  open g use {Client, Informer, wait_for_cache_sync}

  abbrev pub SharedInformerOption : Type 0
  SharedInformerOption = Factory g → Factory g

  insert_all : List (String × ℕ) → Table ℕ → Table ℕ
  insert_all [] m = m
  insert_all ((k, v) ∷ rest) m = insert_all rest (insert k v m)

  unfoldable pub with_custom_resync_config : List (String × ℕ) → SharedInformerOption
  unfolding insert_all
  with_custom_resync_config config f = record f {
    custom_resync = insert_all config f.custom_resync;
  }

  unfoldable pub with_tweak_list_options : Tweak g → SharedInformerOption
  with_tweak_list_options tweak f = record f { tweak_list_options = some tweak }

  unfoldable pub with_namespace : String → SharedInformerOption
  with_namespace namespace f = record f { namespace = namespace }

  apply_all : List SharedInformerOption → Factory g → Factory g
  apply_all [] f = f
  apply_all (opt ∷ opts) f = apply_all opts (opt f)

  -- `NewSharedInformerFactoryWithOptions`; `NamespaceAll` is the empty text.
  unfoldable pub new_factory_with_options : Client → ℕ → List SharedInformerOption → Factory g
  unfolding apply_all
  new_factory_with_options client default_resync options = apply_all options (record {
    client = client;
    namespace = "";
    tweak_list_options = none;
    default_resync = default_resync;
    custom_resync = [];
    informers = [];
    started_informers = [];
  })

  -- `NewSharedInformerFactory`.
  unfoldable pub new_factory : Client → ℕ → Factory g
  unfolding new_factory_with_options
  new_factory client default_resync = new_factory_with_options client default_resync []

  unfoldable pub new_filtered_factory : Client → ℕ → String → Tweak g → Factory g
  unfolding new_factory_with_options with_namespace with_tweak_list_options
  new_filtered_factory client default_resync namespace tweak =
      new_factory_with_options client default_resync
        (with_namespace namespace ∷ with_tweak_list_options tweak ∷ [])

  -- The loop of `Start`: the informers that it sets running, and what it notes as started.
  unfoldable pub start_loop : List (String × Informer) → Table Bool → List Informer × Table Bool
  start_loop [] started = ([], started)
  start_loop ((t, informer) ∷ rest) started =
      let skipped = start_loop rest started in
      let (runs, started') = start_loop rest (insert t true started) in
      if is_set t started then skipped else (informer ∷ runs, started')

  -- `(*sharedInformerFactory).Start`, given the walk of the map that Go takes; and in the order of
  -- the list.
  unfoldable pub start_along : List (String × Informer) → Factory g → List Informer × Factory g
  start_along walk f =
      let (runs, started) = start_loop walk f.started_informers in
      (runs, record f { started_informers = started })

  unfoldable pub start : Factory g → List Informer × Factory g
  unfolding start_along
  start f = start_along f.informers f

  -- `(*sharedInformerFactory).WaitForCacheSync`.
  unfoldable pub wait_loop : List (String × Informer) → Table Bool → Table Bool
  wait_loop [] started = []
  wait_loop ((t, informer) ∷ rest) started =
      let res = wait_loop rest started in
      if is_set t started then insert t (wait_for_cache_sync informer) res else res

  unfoldable pub wait_for_sync : Factory g → Table Bool
  wait_for_sync f = wait_loop f.informers f.started_informers

  -- `resyncPeriod` of `InformerFor`.
  unfoldable pub resync_period : String → Factory g → ℕ
  resync_period t f = elim (lookup t f.custom_resync) [ some v ↦ v | none ↦ f.default_resync ]

  -- `(*sharedInformerFactory).InformerFor`.
  unfoldable pub informer_for : String → (Client → ℕ → Informer) → Factory g → Informer × Factory g
  unfolding resync_period
  informer_for t new_func f = elim (lookup t f.informers) [
    | some informer ↦ (informer, f)
    | none ↦
        let informer = new_func f.client (resync_period t f) in
        (informer, record f { informers = insert t informer f.informers })
  ]
