-- ===== src/Resources/Handlers.antt =====
-- pkg/service/resources/v1alpha3: listhandler.go, namedHandler.go and `ToListResult` of interface.go.
use kubesphere_schedule.Query.Types.{Query}
use kubesphere_schedule.Resources.Objects.{RuntimeObject}
use kubesphere_schedule.Base.{◌⊎◌, ◌∷◌, some, none, [], Outcome, Option, List}
use kubesphere_schedule.Resources.Listing.{
  ListResult, Sort, default_list, no_transform_func, TransformFunc,
}
use kubesphere_schedule.Resources.Filter.{default_filter, FilterFunc}
use kubesphere_schedule.Resources.Compare.{CompareFunc, default_compare, name_compare}

pub record ListHandler (C V : Type 0) : Type 0 where
  pub comparator : CompareFunc C
  pub filter : FilterFunc C
  pub transformer : TransformFunc C V

unfoldable pub default_list_handler : {C V : Type 0} → ListHandler C V
unfolding default_compare default_filter no_transform_func
default_list_handler = record {
  comparator = default_compare;
  filter = default_filter;
  transformer = no_transform_func;
}

unfoldable pub named_handler : {C V : Type 0} → ListHandler C V
unfolding name_compare default_filter no_transform_func
named_handler = record {
  comparator = name_compare;
  filter = default_filter;
  transformer = no_transform_func;
}

abbrev pub list_with :
    {C V : Type 0}
    → Sort C
    → List (RuntimeObject C)
    → Query
    → ListHandler C V
    → Outcome (ListResult (RuntimeObject C ⊎ V))
list_with sort objects q h =
    default_list sort objects q (some h.comparator) (some h.filter) (some h.transformer ∷ [])

-- A nil handler is the default one.
unfoldable pub to_list_result :
    {C V : Type 0}
    → Sort C
    → List (RuntimeObject C)
    → Query
    → Option (ListHandler C V)
    → Outcome (ListResult (RuntimeObject C ⊎ V))
unfolding default_list default_list_handler
to_list_result sort objects q none = list_with sort objects q default_list_handler
to_list_result sort objects q (some handler) = list_with sort objects q handler
