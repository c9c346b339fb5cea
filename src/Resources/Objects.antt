-- ===== src/Resources/Objects.antt =====
-- The objects that pkg/service/resources/v1alpha3 lists. Of `metav1.Object` only what the filters and
-- the comparison read; a timestamp is a number of instants.
use kubesphere_schedule.Base.{ℕ, String, List}

pub record OwnerReference : Type 0 where
  pub uid : String
  pub kind : String

pub record ObjectMeta : Type 0 where
  pub name : String
  pub namespace : String
  pub uid : String
  pub creation_timestamp : ℕ
  pub labels : List (String × String)
  pub annotations : List (String × String)
  pub owner_references : List OwnerReference

-- A `runtime.Object`: nil, one that has no metadata accessor, or one with its metadata. The content
-- beside the metadata is of any type.
pub data RuntimeObject (C : Type 0) : Type 0 where
  nil_object : RuntimeObject C
  bare : C → RuntimeObject C
  with_meta : ObjectMeta → C → RuntimeObject C
