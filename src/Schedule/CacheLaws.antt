-- ===== src/Schedule/CacheLaws.antt =====
-- What the namespace cache of the controller holds, and what an added deployment makes of it.
use kubesphere_schedule.Schedule.Cluster.{Client}
use kubesphere_schedule.Schedule.Types.{
  resource_type_namespace, Analytics, AnalysisTask, ResourceSelector,
}
use kubesphere_schedule.Schedule.Controller.{
  create_deployments, reconcile_namespace_selectors, Reader, Reconciler,
}
use kubesphere_schedule.Base.{
  All, ◌≢◌, ◌≡◌, ◌∷◌, ◌||◌, ◌==◌, ◌&&◌, true, insert, inr, inl, false, eq_refl, eq_iff, arith, [],
  String, Option-cases, List, Bool-cases, Bool,
}

-- A selector of the list is of the kind Namespace and has the name.
unfoldable pub names : String → List ResourceSelector → Bool
names namespace [] = false
names namespace (resource ∷ resources) =
    (resource.kind == resource_type_namespace && resource.name == namespace)
    || names namespace resources

-- The task may stand in the cache for the namespace.
pub record Covers (namespace : String) (task : AnalysisTask) : Type 0 where
  pub nonempty : namespace ≢ ""
  pub is_namespace_task : task.spec.type ≡ resource_type_namespace
  pub named : names namespace task.spec.resource_selectors ≡ true

abbrev IsCovering : String × AnalysisTask → Type 0
IsCovering entry = Covers entry.0 entry.1

unfoldable pub IsCovered : Reconciler → Type 0
IsCovered r = All IsCovering r.name_space_cache

insert-All :
    (namespace : String) (task : AnalysisTask) (entries : List (String × AnalysisTask))
    → Covers namespace task
    → All IsCovering entries
    → All IsCovering (insert namespace task entries)
unfolding insert
insert-All namespace task [] c h = (c, tt)
insert-All namespace task (entry ∷ rest) c h = elim (Bool-cases (entry.0 == namespace)) [
  | inl same ↦ rw (insert, same) (c, h.1)
  | inr other ↦ rw (insert, other) (h.0, insert-All namespace task rest c h.1)
]

IsCovered-cache :
    (namespace : String) (task : AnalysisTask) (r : Reconciler)
    → Covers namespace task
    → IsCovered r
    → IsCovered (record r { name_space_cache = insert namespace task r.name_space_cache })
unfolding IsCovered
IsCovered-cache namespace task r c h = insert-All namespace task r.name_space_cache c h

module _ {W V D : Type 0} (to_lower : String → String) (client : Client W Analytics D)
    (reader : Reader W V) where
  pub reconcile_selectors-IsCovered :
      (task : AnalysisTask) (resources : List ResourceSelector) (r : Reconciler) (w : W)
      → task.spec.type ≡ resource_type_namespace
      → ((namespace : String)
          → names namespace resources ≡ true
          → names namespace task.spec.resource_selectors ≡ true)
      → IsCovered r
      → IsCovered (reconcile_namespace_selectors to_lower client reader task resources (r, w)).1.0
  unfolding reconcile_namespace_selectors names
  reconcile_selectors-IsCovered task [] r w t n h = h
  reconcile_selectors-IsCovered task (resource ∷ resources) r w t n h =
      let later : (namespace : String)
          → names namespace resources ≡ true
          → names namespace task.spec.resource_selectors ≡ true =
        λ j k. n j (ground arith) in
      elim (Bool-cases (resource.kind == resource_type_namespace)) [
        | inr skipped ↦ rw (skipped) (reconcile_selectors-IsCovered task resources r w t later h)
        | inl kind ↦ elim (Bool-cases (resource.name == "")) [
          | inl stop ↦ rw (kind, stop) h
          | inr go ↦
              let covers : Covers resource.name task = record {
                nonempty = ground (arith, eq_iff resource.name "");
                is_namespace_task = t;
                named = n resource.name (ground (arith, kind, eq_refl resource.name));
              } in
              let r' : Reconciler = record r {
                name_space_cache = insert resource.name task r.name_space_cache;
              } in
              let w' =
                create_deployments to_lower client reader resource.name
                  task.spec.completion_strategy (reader.list_deployments resource.name w).0 w in
              let cached = IsCovered-cache resource.name task r covers h in
              elim (Option-cases (reader.list_deployments resource.name w).1) [
                | inl none_found ↦
                    rw (kind, go, none_found)
                      (reconcile_selectors-IsCovered task resources r' w' t later cached)
                | inr (e, failed) ↦ rw (kind, go, failed) cached
              ]
        ]
      ]
