-- ===== src/Api/DeepCopy.antt =====
-- pkg/apis/kopilot/v1alpha1/zz_generated.deepcopy.go, over a heap on which a slice of clusters is a
-- reference to its array. A nil pointer, and a nil slice, is `none`.
use kopilot.Base.{
  ℕ, suc, ◌≡◌, ◌<◌, refl, List, [], ◌∷◌, Option, none, some, nat_eq, if◌then◌else◌, map, arith,
}
use kopilot.Api.{Kube, Cluster}

-- `DeepCopyInto` of the embedded types, which apimachinery supplies.
pub record MetaCopy (k : Kube) : Type 0 where
  pub object_meta : k.ObjectMeta → k.ObjectMeta
  pub list_meta : k.ListMeta → k.ListMeta

-- Documented: the copy has the value of the original.
pub record IsFaithful {k : Kube} (c : MetaCopy k) : Type 0 where
  pub object_meta_eq : (x : k.ObjectMeta) → c.object_meta x ≡ x
  pub list_meta_eq : (x : k.ListMeta) → c.list_meta x ≡ x

-- The arrays of clusters; those from `next` on are not allocated.
pub record Heap (k : Kube) : Type 0 where
  pub next : ℕ
  pub array : ℕ → Option (List (Cluster k))

-- A `ClusterList` with its `Items` as a reference.
pub record ListObject (k : Kube) : Type 0 where
  pub type_meta : k.TypeMeta
  pub list_meta : k.ListMeta
  pub items : Option ℕ

module _ {k : Kube} (c : MetaCopy k) where
  -- `(*Cluster).DeepCopyInto` and `DeepCopy`.
  unfoldable pub deep_copy_cluster_into : Cluster k → Cluster k
  deep_copy_cluster_into x = record x { object_meta = c.object_meta x.object_meta }

  unfoldable pub deep_copy_cluster : Option (Cluster k) → Option (Cluster k)
  unfolding deep_copy_cluster_into
  deep_copy_cluster none = none
  deep_copy_cluster (some x) = some (deep_copy_cluster_into x)

  abbrev pub put : Heap k → ℕ → List (Cluster k) → Heap k
  put h r xs = record h { array = λ j. if nat_eq r j then some xs else h.array j }

  -- `make([]Cluster, len(*in))`, and the loop that copies each element into its place.
  unfoldable pub copy_items : ℕ → Heap k → Option (ℕ × Heap k)
  unfolding deep_copy_cluster_into
  copy_items r h = elim (h.array r) [
    | none ↦ none
    | some xs ↦
        some (h.next, put (record h { next = suc h.next }) h.next (map deep_copy_cluster_into xs))
  ]

  -- `(*ClusterList).DeepCopyInto`; `none` is a fault, a slice with no array.
  unfoldable pub deep_copy_list_into : ListObject k → Heap k → Option (ListObject k × Heap k)
  unfolding copy_items
  deep_copy_list_into l h = elim l.items [
    | none ↦
        some
          (record { type_meta = l.type_meta; list_meta = c.list_meta l.list_meta; items = none }, h)
    | some r ↦ elim (copy_items r h) [
      | none ↦ none
      | some (r', h') ↦ some (
        record { type_meta = l.type_meta; list_meta = c.list_meta l.list_meta; items = some r' },
        h',
      )
    ]
  ]

  -- `(*ClusterList).DeepCopy`.
  unfoldable pub deep_copy_list :
      Option (ListObject k) → Heap k → Option (Option (ListObject k) × Heap k)
  deep_copy_list none h = some (none, h)
  deep_copy_list (some l) h = elim (deep_copy_list_into l h) [
    | none ↦ none
    | some (l', h') ↦ some (some l', h')
  ]

-- `runtime.Object`: an interface that holds one of the two pointers; `none` is the nil interface.
pub data Object (k : Kube) : Type 0 where
  cluster_object : Cluster k → Object k
  list_object : ListObject k → Object k

module _ {k : Kube} (c : MetaCopy k) where
  -- `DeepCopyObject` of `*Cluster` and of `*ClusterList`: for a nil pointer the nil interface.
  unfoldable pub deep_copy_cluster_object : Option (Cluster k) → Option (Object k)
  unfolding deep_copy_cluster
  deep_copy_cluster_object x = elim (deep_copy_cluster c x) [
    | none ↦ none
    | some y ↦ some (cluster_object y)
  ]

  unfoldable pub deep_copy_list_object :
      Option (ListObject k) → Heap k → Option (Option (Object k) × Heap k)
  unfolding deep_copy_list
  deep_copy_list_object l h = elim (deep_copy_list c l h) [
    | none ↦ none
    | some (none, h') ↦ some (none, h')
    | some (some l', h') ↦ some (some (list_object l'), h')
  ]

-- What a list holds on a heap: its metadata and its clusters, if it has an array.
abbrev pub items_on : {k : Kube} → Heap k → ListObject k → Option (List (Cluster k))
items_on h l = elim l.items [ none ↦ none | some r ↦ h.array r ]

module _ {k : Kube} (c : MetaCopy k) (faithful : IsFaithful c) where
  copies : (xs : List (Cluster k)) → map (deep_copy_cluster_into c) xs ≡ xs
  unfolding deep_copy_cluster_into
  copies [] = refl
  copies (x ∷ xs) = ground (arith, faithful.object_meta_eq x.object_meta, copies xs)

  -- The copy of a list whose slice has an array holds the same, in an array of its own: a write to
  -- either array is not seen through the other list.
  pub deep_copy_list_into-IsSeparate :
      (l : ListObject k) (h : Heap k) (r : ℕ) (xs ys : List (Cluster k))
      → l.items ≡ some r
      → r < h.next
      → h.array r ≡ some xs
      → (l' : ListObject k) × (h' : Heap k) × (r' : ℕ) × (deep_copy_list_into c l h ≡ some (l', h'))
        × ((l'.type_meta ≡ l.type_meta) × (l'.list_meta ≡ l.list_meta) × (l'.items ≡ some r'))
        × ((items_on h' l' ≡ some xs) × (items_on h' l ≡ some xs))
        × ((items_on (put c h' r ys) l' ≡ some xs) × (items_on (put c h' r' ys) l ≡ some xs))
  unfolding deep_copy_list_into
  deep_copy_list_into-IsSeparate l h r xs ys items low at = (
    record { type_meta = l.type_meta; list_meta = c.list_meta l.list_meta; items = some h.next },
    put c (record h { next = suc h.next }) h.next (map (deep_copy_cluster_into c) xs),
    h.next,
    ground arith,
    (refl, faithful.list_meta_eq l.list_meta, refl),
    (ground (arith, copies xs), ground arith),
    (ground (arith, copies xs), ground arith),
  )
