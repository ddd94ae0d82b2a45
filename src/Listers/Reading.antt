-- ===== src/Listers/Reading.antt =====
-- What the listers find in a cache that was filled with clusters.
use Prim.Native.String
use mathlib.Core.List.{append-nil, append_assoc}
use kopilot.Base.{
  ◌≡◌, ◌↔◌, sym, ap, ◌∙◌, String, List, [], ◌∷◌, ◌++◌, Option, none, some, Error, ok, Result-cases,
  Option-cases, inl, inr, Outcome, done, panicked, ◌>>=◌, map, arith,
}
use kopilot.Api.{Cluster}
use kopilot.Listers.{
  Cache, append_cluster, new_cluster_lister, list, clusters, list_in_namespace, get,
}

-- A function called on objects in turn.
abbrev pub visit : {S O : Type 0} → (O → S → Outcome S) → List O → S → Outcome (S × Option Error)
visit fn [] s = done (s, none)
visit fn (m ∷ ms) s = do s' ← fn m s; visit fn ms s'

module _ (c : Cache) where
  open c use {
    kube, Indexer, Selector, Object, as_cluster, list_all, list_all_by_namespace, get_by_key,
  }

  -- Documented of client-go: `ListAll` calls the function on each object that the selector matches,
  -- in turn, and `ListAllByNamespace` on those of the namespace.
  pub record Visits : Type 0 where
    pub matching : Indexer → Selector → List Object
    pub matching_in : Indexer → String → Selector → List Object
    pub list_all_eq :
        (ix : Indexer) (sel : Selector)
        (fn : Object → List (Cluster kube) → Outcome (List (Cluster kube)))
        (ret : List (Cluster kube))
        → list_all ix sel fn ret ≡ visit fn (matching ix sel) ret
    pub list_all_by_namespace_eq :
        (ix : Indexer) (ns : String) (sel : Selector)
        (fn : Object → List (Cluster kube) → Outcome (List (Cluster kube)))
        (ret : List (Cluster kube))
        → list_all_by_namespace ix ns sel fn ret ≡ visit fn (matching_in ix ns sel) ret

  visit-append_cluster :
      (ms : List Object) (xs ret : List (Cluster kube))
      → map as_cluster ms ≡ map some xs
      → visit (append_cluster c) ms ret ≡ done (ret ++ xs, none)
  unfolding append_cluster
  visit-append_cluster [] [] ret h =
      ap (λ (r : List (Cluster kube)). done (r, none)) (sym (append-nil ret))
  visit-append_cluster [] (x ∷ xs) ret h = absurd (ground arith)
  visit-append_cluster (m ∷ ms) [] ret h = absurd (ground arith)
  visit-append_cluster (m ∷ ms) (x ∷ xs) ret h =
      let here : as_cluster m ≡ some x = cc in
      let later : map as_cluster ms ≡ map some xs = cc in
      rw (here, append_cluster)
        (visit-append_cluster ms xs (ret ++ x ∷ []) later
          ∙ ap (λ (r : List (Cluster kube)). done (r, none)) (append_assoc ret (x ∷ []) xs))

  -- Over a cache whose matching objects are clusters, the lister returns all that match, in the
  -- order of the cache, and the lister of a namespace those of its namespace; neither returns an
  -- error or panics.
  pub list_lem :
      (v : Visits) (ix : Indexer) (ns : String) (sel : Selector) (xs ys : List (Cluster kube))
      → map as_cluster (v.matching ix sel) ≡ map some xs
      → map as_cluster (v.matching_in ix ns sel) ≡ map some ys
      → (list c (new_cluster_lister c ix) sel ≡ done (xs, none))
        × (list_in_namespace c (clusters c (new_cluster_lister c ix) ns) sel ≡ done (ys, none))
  unfolding list list_in_namespace clusters new_cluster_lister
  list_lem v ix ns sel xs ys all some_of = (
    v.list_all_eq ix sel _ [] ∙ visit-append_cluster (v.matching ix sel) xs [] all,
    v.list_all_by_namespace_eq ix ns sel _ []
        ∙ visit-append_cluster (v.matching_in ix ns sel) ys [] some_of,
  )

  -- The lister of a namespace gets a cluster by a name exactly if the cache has it under namespace,
  -- slash, name; it panics exactly if the cache has another kind of object there.
  pub get_iff :
      (ix : Indexer) (ns name : String)
      → ((x : Cluster kube)
          → (get c (clusters c (new_cluster_lister c ix) ns) name ≡ done (ok x)) ↔ (
              (obj : Object) × (get_by_key ix (String.◌++◌ ns (String.◌++◌ "/" name))
                ≡ ok (some obj))
              × (as_cluster obj ≡ some x)))
        × ((get c (clusters c (new_cluster_lister c ix) ns) name ≡ panicked) ↔ (
            (obj : Object) × (get_by_key ix (String.◌++◌ ns (String.◌++◌ "/" name)) ≡ ok (some obj))
            × (as_cluster obj ≡ none)))
  unfolding get clusters new_cluster_lister
  get_iff ix ns name = elim (Result-cases (get_by_key ix (String.◌++◌ ns (String.◌++◌ "/" name)))) [
    | inr (er, q) ↦ (
      λ x. ((λ h. absurd (ground arith)), λ (obj, found, _). absurd (ground arith)),
      ((λ h. absurd (ground arith)), λ (obj, found, _). absurd (ground arith)),
    )
    | inl (o, q) ↦ elim (Option-cases o) [
      | inl z ↦ (
        λ x. ((λ h. absurd (ground arith)), λ (obj, found, _). absurd (ground arith)),
        ((λ h. absurd (ground arith)), λ (obj, found, _). absurd (ground arith)),
      )
      | inr (obj, z) ↦ elim (Option-cases (as_cluster obj)) [
        | inl other ↦ (
          λ x. ((λ h. absurd (ground arith)), λ (obj', found, k). absurd (ground arith)),
          ((λ h. (obj, q ∙ ap ok z, other)), λ (obj', found, k). ground arith),
        )
        | inr (y, is) ↦ (
          λ x. ((λ h. (obj, q ∙ ap ok z, ground arith)), λ (obj', found, k). ground arith),
          ((λ h. absurd (ground arith)), λ (obj', found, k). absurd (ground arith)),
        )
      ]
    ]
  ]
