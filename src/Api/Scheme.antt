-- ===== src/Api/Scheme.antt =====
-- pkg/apis/kopilot/v1alpha1/register.go, the two schemes that take its types in,
-- pkg/client/clientset/versioned/scheme/register.go and fake/register.go beside it, and the `init`
-- of cmd/kopilot-webhook/main.go. Go types are registered by their kinds.
use kopilot.Base.{
  ◌≡◌, refl, String, List, [], ◌∷◌, Bool, true, All, Result, ok, err, Outcome, done, panicked,
  ◌>>=◌,
}
use kopilot.Api.{group_name}

pub record GroupVersion : Type 0 where
  pub group : String
  pub version : String

abbrev pub scheme_group_version : GroupVersion
scheme_group_version = record { group = group_name; version = "v1alpha1" }

-- `Kind` and `Resource`: a group with the name of a kind or of a resource.
abbrev pub kind : String → String × String
kind name = (scheme_group_version.group, name)

abbrev pub resource : String → String × String
resource name = (scheme_group_version.group, name)

-- apimachinery: `runtime.Scheme` with `AddKnownTypes`, `metav1.AddToGroupVersion`, and whether a
-- scheme knows a kind; `AddToScheme` of client-go's own scheme.
pub record SchemeLibrary : Type 1 where
  pub Scheme : Type 0
  pub new_scheme : Scheme
  pub add_types : GroupVersion → List String → Scheme → Scheme
  pub add_to_group_version : GroupVersion → Scheme → Scheme
  pub knows : Scheme → GroupVersion → String → Bool
  pub client_go_add_to_scheme : Scheme → Result Scheme

module _ (l : SchemeLibrary) where
  open l use {Scheme, new_scheme, add_types, add_to_group_version, knows, client_go_add_to_scheme}

  -- `addKnownTypes`, by the scheme that it leaves.
  unfoldable pub add_known_types : Scheme → Result Scheme
  add_known_types s = ok (
      add_to_group_version scheme_group_version
        (add_types scheme_group_version ("Cluster" ∷ "ClusterList" ∷ []) s))

  -- `(*SchemeBuilder).AddToScheme`: the functions in their order, until one fails.
  unfoldable pub add_all : List (Scheme → Result Scheme) → Scheme → Result Scheme
  add_all [] s = ok s
  add_all (f ∷ fs) s = elim (f s) [ err e ↦ err e | ok s' ↦ add_all fs s' ]

  -- `SchemeBuilder` and `localSchemeBuilder`, by their `AddToScheme`.
  unfoldable pub add_to_scheme : Scheme → Result Scheme
  add_to_scheme = add_all (add_known_types ∷ [])

  unfoldable pub clientset_add_to_scheme : Scheme → Result Scheme
  clientset_add_to_scheme = add_all (add_to_scheme ∷ [])

  -- `utilruntime.Must`.
  unfoldable pub must_scheme : Result Scheme → Outcome Scheme
  must_scheme (ok s) = done s
  must_scheme (err e) = panicked

  -- `init` of the clientset's scheme.
  unfoldable pub clientset_scheme : Outcome Scheme
  clientset_scheme = must_scheme (
      clientset_add_to_scheme
        (add_to_group_version (record { group = ""; version = "v1" }) new_scheme))

  -- The same of the fake clientset, over a scheme of its own.
  unfoldable pub fake_add_to_scheme : Scheme → Result Scheme
  fake_add_to_scheme = add_all (add_to_scheme ∷ [])

  unfoldable pub fake_scheme : Outcome Scheme
  fake_scheme =
      must_scheme (
        fake_add_to_scheme
          (add_to_group_version (record { group = ""; version = "v1" }) new_scheme))

  -- `init` of the webhook program.
  unfoldable pub webhook_scheme : Outcome Scheme
  webhook_scheme = do
    s ← must_scheme (client_go_add_to_scheme new_scheme)
    must_scheme (add_to_scheme s)

  -- Documented: `AddKnownTypes` makes its kinds known; `AddToGroupVersion` forgets none.
  pub record Registers : Type 0 where
    pub added :
        (g : GroupVersion) (kinds : List String) (s : Scheme)
        → All (λ k. knows (add_types g kinds s) g k ≡ true) kinds
    pub kept :
        (g h : GroupVersion) (k : String) (s : Scheme)
        → knows s g k ≡ true
        → knows (add_to_group_version h s) g k ≡ true

  -- The schemes of the clientset and of the fake one can be made, are alike, and know clusters and
  -- their lists.
  clientset_scheme-knows :
      Registers
      → (s : Scheme) × (clientset_scheme ≡ done s)
        × (fake_scheme ≡ done s)
        × (knows s scheme_group_version "Cluster" ≡ true)
        × (knows s scheme_group_version "ClusterList" ≡ true)
  unfolding clientset_scheme fake_scheme fake_add_to_scheme clientset_add_to_scheme add_to_scheme
      add_all add_known_types must_scheme
  clientset_scheme-knows reg =
      let start = add_to_group_version (record { group = ""; version = "v1" }) new_scheme in
      let kinds = reg.added scheme_group_version ("Cluster" ∷ "ClusterList" ∷ []) start in
      (
        _,
        refl,
        refl,
        reg.kept scheme_group_version scheme_group_version "Cluster" _ kinds.0,
        reg.kept scheme_group_version scheme_group_version "ClusterList" _ kinds.1.0,
      )
