-- ===== src/Resources/Filter.antt =====
-- The filters of pkg/service/resources/v1alpha3/interface.go.
use Prim.Native.Char.{Char}
use kubesphere_schedule.Query.Types.{Filter}
use kubesphere_schedule.Resources.Objects.{
  nil_object, with_meta, OwnerReference, bare, ObjectMeta, RuntimeObject,
}
use kubesphere_schedule.Base.{
  ◌||◌, ◌==◌, ◌&&◌, true, trim_space, strip_last, split, some, not, none, is_char, if◌then◌else◌,
  false, cut, contains, any, all, String, Option, List, Bool,
}

-- The filter text of a label: key, whether it is negated, and the value.
pub record LabelFilter : Type 0 where
  pub key : String
  pub opposite : Bool
  pub value : String

abbrev pub label_of : String → Option (Char × String) → LabelFilter
label_of key none = record { key = key; opposite = false; value = "*" }
label_of key (some (c, value)) = elim (strip_last b'!' key) [
  | none ↦ record { key = key; opposite = false; value = value }
  | some k ↦ record { key = k; opposite = true; value = value }
]

-- `SplitN(filter, "=", 2)`, and the `!` at the end of the key.
unfoldable pub read_label : String → LabelFilter
unfolding cut strip_last
read_label text = let (key, rest) = cut (is_char b'=') text in label_of key rest

unfoldable pub entry_matches : LabelFilter → String × String → Bool
entry_matches f (k, v) =
    if f.opposite
    then k == f.key && not (v == f.value)
    else k == f.key && (f.value == "*" || v == f.value)

-- The loop over the labels, in any order.
unfoldable pub label_match : List (String × String) → String → Bool
unfolding read_label entry_matches
label_match labels text = any (entry_matches (read_label text)) labels

-- All the filters between commas match.
unfoldable pub labels_match : List (String × String) → String → Bool
unfolding split trim_space label_match
labels_match labels filter_str =
    all (λ f. label_match labels (trim_space f)) (split b',' filter_str)

unfoldable pub default_object_meta_filter : ObjectMeta → Filter → Bool
unfolding labels_match contains split
default_object_meta_filter item f =
    if f.field == "names"
    then any (λ name. item.name == name) (split b',' f.value)
    else if f.field == "name"
    then contains item.name f.value
    else if f.field == "uid"
    then item.uid == f.value
    else if f.field == "namespace"
    then item.namespace == f.value
    else if f.field == "ownerReference"
    then any (λ (o : OwnerReference). o.uid == f.value) item.owner_references
    else if f.field == "ownerKind"
    then any (λ (o : OwnerReference). o.kind == f.value) item.owner_references
    else if f.field == "annotation"
    then labels_match item.annotations f.value
    else if f.field == "label"
    then labels_match item.labels f.value
    else true

abbrev pub FilterFunc : Type 0 → Type 0
FilterFunc C = RuntimeObject C → Filter → Bool

unfoldable pub default_filter : {C : Type 0} → RuntimeObject C → Filter → Bool
unfolding default_object_meta_filter
default_filter nil_object f = false
default_filter (bare c) f = false
default_filter (with_meta m c) f = default_object_meta_filter m f

abbrev pub or_always : {C : Type 0} → Bool → Option (FilterFunc C) → RuntimeObject C → Filter → Bool
or_always b none object f = b
or_always b (some ff) object f = ff object f

-- `And` and `Or`, where a nil function is always true, always false.
unfoldable pub and_filter :
    {C : Type 0} → Option (FilterFunc C) → Option (FilterFunc C) → RuntimeObject C → Filter → Bool
and_filter ff another_ff object f = or_always true ff object f && or_always true another_ff object f

unfoldable pub or_filter :
    {C : Type 0} → Option (FilterFunc C) → Option (FilterFunc C) → RuntimeObject C → Filter → Bool
or_filter ff another_ff object f =
    or_always false ff object f || or_always false another_ff object f
