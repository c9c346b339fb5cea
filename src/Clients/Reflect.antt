-- ===== src/Clients/Reflect.antt =====
-- pkg/utils/reflectutils/reflect.go. A value behind an `interface{}` is what reflection tells of it;
-- `V` are the values of fields and elements, which can be compared and are exported.
use kubesphere_schedule.Base.{
  ◌≡◌, ◌∷◌, true, returned, refl, panicked, if◌then◌else◌, false, arith, any, [], Outcome, List,
  Bool,
}

-- A pointer to a struct is the list of its fields. `other_pointer` points to no struct, `other_nilable`
-- is a map, slice, channel or function that is not nil, and `plain` has a kind that cannot be nil, as
-- has no value at all.
pub data Argument (V : Type 0) : Type 0 where
  nil_value : Argument V
  struct_pointer : List V → Argument V
  other_pointer other_nilable plain : Argument V

module _ {V : Type 0} (is_zero : V → Bool) (assignable : V → V → Bool) where
  -- The loop over the fields of the left struct. `Field` panics behind the last field of the right
  -- one, `Set` with a value of another type.
  unfoldable pub override_fields : List V → List V → Outcome (List V)
  override_fields [] newer = returned []
  override_fields (old ∷ olds) [] = panicked
  override_fields (old ∷ olds) (value ∷ newer) =
      let rest = override_fields olds newer in
      if is_zero value
      then elim rest [ returned fields ↦ returned (old ∷ fields) | panicked ↦ panicked ]
      else if assignable value old
      then elim rest [ returned fields ↦ returned (value ∷ fields) | panicked ↦ panicked ]
      else panicked

  -- `IsNil` panics on a plain value; a left struct beside a pointer to something else panics too.
  unfoldable pub override : Argument V → Argument V → Outcome (Argument V)
  unfolding override_fields
  override plain right = panicked
  override nil_value right = returned nil_value
  override left plain = panicked
  override left nil_value = returned left
  override (struct_pointer olds) (struct_pointer newer) = elim (override_fields olds newer) [
    | returned fields ↦ returned (struct_pointer fields)
    | panicked ↦ panicked
  ]
  override (struct_pointer []) other_pointer = returned (struct_pointer [])
  override (struct_pointer (old ∷ olds)) other_pointer = panicked
  override other_pointer (struct_pointer newer) = panicked
  override other_pointer other_pointer = panicked
  override left other_nilable = returned left
  override other_nilable right = returned other_nilable

  -- The field that stays.
  abbrev pub later_field : V → V → V
  later_field old value = if is_zero value then old else value

  abbrev pub later_fields : List V → List V → List V
  later_fields [] newer = []
  later_fields (old ∷ olds) [] = []
  later_fields (old ∷ olds) (value ∷ newer) = later_field old value ∷ later_fields olds newer

  -- Two structs of one type: as many fields, and each value fits the field at its place.
  abbrev pub HasOneType : List V → List V → Type 0
  HasOneType [] [] = Unit
  HasOneType (a ∷ olds) (b ∷ newer) = (assignable b a ≡ true) × HasOneType olds newer
  HasOneType olds newer = ⊥

  pub override_fields-returns :
      (olds newer : List V)
      → HasOneType olds newer
      → override_fields olds newer ≡ returned (later_fields olds newer)
  unfolding override_fields
  override_fields-returns [] [] h = refl
  override_fields-returns [] (b ∷ newer) h = refl
  override_fields-returns (a ∷ olds) [] h = elim h [ ]
  override_fields-returns (a ∷ olds) (b ∷ newer) (fits, h) =
      ground (arith, override_fields-returns olds newer h)

-- The container of `In`: `reflect.TypeOf(nil)` has no kind.
pub data Container (V : Type 0) : Type 0 where
  no_container other_kind : Container V
  elements keys : List V → Container V

module _ {V : Type 0} (same : V → V → Bool) where
  unfoldable pub is_in : V → Container V → Outcome Bool
  is_in value no_container = panicked
  is_in value other_kind = returned false
  is_in value (elements vs) = returned (any (λ v. same v value) vs)
  is_in value (keys vs) = returned (any (λ v. same v value) vs)
