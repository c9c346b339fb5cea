-- ===== src/Generated/ListerLaws.antt =====
-- What the lister of pkg/client/listers/schedule/v1alpha1/analysistask.go finds in an indexer that
-- files tasks under their keys.
use kubesphere_schedule.Schedule.Cluster.{ApiError}
use kubesphere_schedule.Schedule.Types.{AnalysisTask}
use kubesphere_schedule.Generated.Lister.{
  namespace_lister, get_from_cache, task_object, found, Indexer, list_in_namespace, NamespaceLister,
  append_tasks,
}
use kubesphere_schedule.Base.{
  filter, ◌⊎◌, ◌==◌, some, returned, refl, none, map, is_empty, inr, inl, if◌then◌else◌, eq_iff,
  Option, List, All, ℕ, false, ap, ◌≡◌, ◌&&◌, true, not, join, is_char, arith, String, Bool,
}
use Prim.Native.String.{[], ◌∷◌}
use mathlib.Core.Option

abbrev pub slash_free : String → Bool
slash_free [] = true
slash_free (c ∷ s) = not (is_char 47 c) && slash_free s

abbrev starts_with : ℕ → String → Bool
starts_with n [] = false
starts_with n (c ∷ s) = is_char n c

-- The text before the first "/" and the text behind it are determined by the whole.
join-slash :
    (a b x y : String)
    → slash_free a ≡ true
    → slash_free b ≡ true
    → join a (join "/" x) ≡ join b (join "/" y)
    → (a ≡ b) × (x ≡ y)
join-slash [] [] x y ha hb e = ground arith
join-slash [] (c ∷ b) x y ha hb e = ground (arith, ap (starts_with 47) e)
join-slash (c ∷ a) [] x y ha hb e = ground (arith, ap (starts_with 47) e)
join-slash (c ∷ a) (d ∷ b) x y ha hb e = ground (arith, join-slash a b x y)

-- The key of `cache.MetaNamespaceKeyFunc`.
abbrev pub key_of : AnalysisTask → String
key_of t =
    if is_empty t.metadata.namespace
    then t.metadata.name
    else join t.metadata.namespace (join "/" t.metadata.name)

abbrev pub find_task : (AnalysisTask → Bool) → List AnalysisTask → Option AnalysisTask
find_task p List.[] = none
find_task p (List.◌∷◌ t ts) = let rest = find_task p ts in if p t then some t else rest

-- A task of a namespace whose name holds no "/".
abbrev pub IsFiled : AnalysisTask → Type 0
IsFiled t = (slash_free t.metadata.namespace ≡ true) × (is_empty t.metadata.namespace ≡ false)

-- What client-go documents of an indexer of tasks with the index by namespaces: it files each stored
-- task under its key, and lists by `everything` all tasks of a namespace, or all tasks if that is
-- `NamespaceAll`, which is empty.
pub record FilesTasks {S : Type 0} (everything : S) (indexer : Indexer S)
    (stored : List AnalysisTask) : Type 0 where
  pub by_key :
      (key : String)
      → indexer.get_by_key key
        ≡ inl (Option.map task_object (find_task (λ t. key_of t == key) stored))
  pub by_namespace :
      (ns : String)
      → is_empty ns ≡ false
      → indexer.list_all_by_namespace ns everything
        ≡ (map task_object (filter (λ (t : AnalysisTask). t.metadata.namespace == ns) stored), none)
  pub everywhere : indexer.list_all_by_namespace "" everything ≡ (map task_object stored, none)

key_of-eq :
    (ns id : String) (t : AnalysisTask)
    → slash_free ns ≡ true
    → IsFiled t
    → (key_of t == join ns (join "/" id)) ≡ (t.metadata.namespace == ns && t.metadata.name == id)
key_of-eq ns id t h f = ground (
  arith,
  f,
  eq_iff (key_of t) (join ns (join "/" id)),
  eq_iff t.metadata.namespace ns,
  eq_iff t.metadata.name id,
  join-slash t.metadata.namespace ns t.metadata.name id,
)

find_task-key_of :
    (ns id : String) (stored : List AnalysisTask)
    → slash_free ns ≡ true
    → All IsFiled stored
    → find_task (λ t. key_of t == join ns (join "/" id)) stored
      ≡ find_task
          (λ (t : AnalysisTask). t.metadata.name == id)
          (filter (λ (t : AnalysisTask). t.metadata.namespace == ns) stored)
find_task-key_of ns id List.[] h f = refl
find_task-key_of ns id (List.◌∷◌ t ts) h f =
    rw (key_of-eq ns id t h f.0) (ground (arith, find_task-key_of ns id ts h f.1))

append_tasks-map : (ts : List AnalysisTask) → append_tasks (map task_object ts) ≡ returned ts
unfolding append_tasks
append_tasks-map List.[] = refl
append_tasks-map (List.◌∷◌ t ts) = rw (append_tasks-map ts)

-- `Get` answers with the task that was found, or the error for a missing one.
abbrev pub answer :
    {S : Type 0} → Indexer S → String → Option AnalysisTask → AnalysisTask ⊎ ApiError
answer indexer id none = inr (indexer.not_found "analysistask" id)
answer indexer id (some t) = inl t

found-answer :
    {S : Type 0} (s : NamespaceLister S) (id : String) (t : Option AnalysisTask)
    → found s id (inl (Option.map task_object t)) ≡ returned (answer s.indexer id t)
found-answer s id none = refl
found-answer s id (some t) = refl

ne_empty : (s : String) → is_empty s ≡ false → (s == "") ≡ false
ne_empty [] h = cc
ne_empty (c ∷ s) h = ground (arith, eq_iff (c ∷ s) "", ap is_empty {x = c ∷ s} {y = ""})

filed_nowhere :
    (id : String) (stored : List AnalysisTask)
    → All IsFiled stored
    → find_task
        (λ (t : AnalysisTask). t.metadata.name == id)
        (filter (λ (t : AnalysisTask). t.metadata.namespace == "") stored)
      ≡ none
filed_nowhere id List.[] f = refl
filed_nowhere id (List.◌∷◌ t ts) (f, fs) =
    rw (ne_empty t.metadata.namespace f.1) (filed_nowhere id ts fs)

-- The lister over an indexer that files tasks as client-go documents, each of a namespace that is not
-- empty and has no "/". Of a namespace that is not empty and has no "/", `List` by the selector of
-- everything gives exactly the stored tasks of the namespace in their order and no error, and `Get`
-- gives the first of these with the name, or the not-found error of "analysistask" if there is none.
-- Of the empty namespace `List` gives all stored tasks, and `Get` finds none of them, whatever the
-- name.
pub get_from_cache-list_in_namespace :
    {S : Type 0} (everything : S) (indexer : Indexer S) (stored : List AnalysisTask)
    (ns id : String)
    → FilesTasks everything indexer stored
    → All IsFiled stored
    → slash_free ns ≡ true
    → is_empty ns ≡ false
    → (let tasks = filter (λ (t : AnalysisTask). t.metadata.namespace == ns) stored in
        (list_in_namespace (namespace_lister indexer ns) everything ≡ returned (tasks, none))
        × (get_from_cache (namespace_lister indexer ns) id
            ≡ returned
                (answer indexer id (find_task (λ (t : AnalysisTask). t.metadata.name == id) tasks)))
        × (list_in_namespace (namespace_lister indexer "") everything ≡ returned (stored, none))
        × (get_from_cache (namespace_lister indexer "") id
            ≡ returned (inr (indexer.not_found "analysistask" id))))
unfolding list_in_namespace get_from_cache namespace_lister
get_from_cache-list_in_namespace everything indexer stored ns id files f h n =
    let tasks : List AnalysisTask =
      filter (λ (t : AnalysisTask). t.metadata.namespace == ns) stored in
    (
      rw (files.by_namespace ns n, append_tasks-map tasks),
      rw (files.by_key (join ns (join "/" id)), find_task-key_of ns id stored h f)
          (found-answer (namespace_lister indexer ns) id _),
      rw (files.everywhere, append_tasks-map stored),
      rw
          (
            files.by_key (join "" (join "/" id)),
            find_task-key_of "" id stored refl f,
            filed_nowhere id stored f,
          )
          refl,
    )
