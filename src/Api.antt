-- ===== src/Api.antt =====
-- pkg/apis/kopilot/register.go, pkg/apis/kopilot/v1alpha1/types.go: the `Cluster` resource.
pub mod DeepCopy
pub mod Scheme
use kopilot.Base.{String, List}

-- k8s.io/apimachinery/pkg/types: the namespace and name by which an object is found.
pub record NamespacedName : Type 0 where
  pub namespace : String
  pub name : String

-- The types of k8s.io/apimachinery that the resource embeds.
pub record Kube : Type 1 where
  pub TypeMeta : Type 0
  pub ObjectMeta : Type 0
  pub ListMeta : Type 0

abbrev pub group_name : String
group_name = "kopilot.smartx.com"

pub record Cluster (k : Kube) : Type 0 where
  pub type_meta : k.TypeMeta
  pub object_meta : k.ObjectMeta
  pub token : String

pub record ClusterList (k : Kube) : Type 0 where
  pub type_meta : k.TypeMeta
  pub list_meta : k.ListMeta
  pub items : List (Cluster k)
