-- ===== src/Resources/Compare.antt =====
-- The comparison functions of pkg/service/resources/v1alpha3/interface.go.
use kubesphere_schedule.Resources.Objects.{with_meta, ObjectMeta, RuntimeObject}
use kubesphere_schedule.Base.{◌==◌, ltb, if◌then◌else◌, false, eqb, after, String, Bool}

-- The order by creation timestamp, and by name where the timestamps are equal.
unfoldable pub by_creation : ObjectMeta → ObjectMeta → Bool
unfolding after
by_creation left right =
    if eqb left.creation_timestamp right.creation_timestamp
    then after left.name right.name
    else ltb right.creation_timestamp left.creation_timestamp

unfoldable pub default_object_meta_compare : ObjectMeta → ObjectMeta → String → Bool
unfolding after by_creation
default_object_meta_compare left right sort_by =
    if sort_by == "name"
    then after left.name right.name
    else if sort_by == "!name"
    then after right.name left.name
    else by_creation left right

abbrev pub CompareFunc : Type 0 → Type 0
CompareFunc C = RuntimeObject C → RuntimeObject C → String → Bool

unfoldable pub default_compare : {C : Type 0} → RuntimeObject C → RuntimeObject C → String → Bool
default_compare (with_meta l a) (with_meta r b) field = default_object_meta_compare l r field
default_compare (with_meta l a) right field = false
default_compare left right field = false

unfoldable pub name_compare : {C : Type 0} → RuntimeObject C → RuntimeObject C → String → Bool
name_compare (with_meta l a) (with_meta r b) field = default_object_meta_compare l r "!name"
name_compare (with_meta l a) right field = false
name_compare left right field = false
