-- ===== src/Generated/Informers.antt =====
-- The informers of analysis tasks: generic.go, schedule/interface.go, schedule/v1alpha1/interface.go
-- and schedule/v1alpha1/analysistask.go of pkg/client/informers/externalversions. The informer's
-- cache belongs to client-go and is a parameter.
use kubesphere_schedule.Schedule.Cluster.{ApiError}
use kubesphere_schedule.Generated.Tasks.{list_tasks}
use kubesphere_schedule.Generated.Rest.{AnalysisTaskList, RestClient, ListOptions}
use kubesphere_schedule.Generated.Factory.{SharedInformerFactory, informer_for}
use kubesphere_schedule.Base.{
  ◌∷◌, ◌==◌, ◌&&◌, some, none, join, if◌then◌else◌, [], String, Option, List, Bool,
}
use kubesphere_schedule.Generated.Tasks
use kubesphere_schedule.Base.Results.{Result, ok, failed}
use kubesphere_schedule.Base.Int.{ℤ}

-- The two calls of the clientset that an informer makes, by namespace: `ScheduleV1alpha1()` and its
-- `AnalysisTasks(namespace)`.
pub record VersionedInterface (O V W : Type 0) : Type 0 where
  pub list : String → ListOptions O → W → (AnalysisTaskList × Option ApiError) × W
  pub watch_tasks : String → ListOptions O → W → (V × Option ApiError) × W

-- The clientset over a REST client, by `newAnalysisTasks`.
unfoldable pub clientset_of : {O D V W : Type 0} → RestClient O D V W → VersionedInterface O V W
unfolding list_tasks Tasks.watch_tasks
clientset_of rest = record {
  list = λ ns. list_tasks (record { client = rest; ns = ns });
  watch_tasks = λ ns. Tasks.watch_tasks (record { client = rest; ns = ns });
}

-- `cache.ListWatch`.
pub record ListWatch (O V W : Type 0) : Type 0 where
  pub list_func : ListOptions O → W → (AnalysisTaskList × Option ApiError) × W
  pub watch_func : ListOptions O → W → (V × Option ApiError) × W

-- `cache.NewSharedIndexInformer` for a type of object and with the names of its indexers, and the
-- `GetIndexer` of an informer. `X` are indexers.
pub record CacheLib (O V W I X : Type 0) : Type 0 where
  pub new_shared_index_informer : ListWatch O V W → String → ℤ → List String → W → I × W
  pub get_indexer : I → X

abbrev pub Tweak : Type 0 → Type 0
Tweak O = ListOptions O → ListOptions O

-- `if tweakListOptions != nil { tweakListOptions(&options) }`.
abbrev pub tweaked : {O : Type 0} → Option (Tweak O) → ListOptions O → ListOptions O
tweaked none options = options
tweaked (some tweak) options = tweak options

-- `group` and `version`: the factory is the one that they are made from.
pub record Group (O : Type 0) : Type 0 where
  pub namespace : String
  pub tweak_list_options : Option (Tweak O)

pub record GroupVersion (O : Type 0) : Type 0 where
  pub namespace : String
  pub tweak_list_options : Option (Tweak O)

-- `analysisTaskInformer`.
pub record AnalysisTaskInformer (O : Type 0) : Type 0 where
  pub tweak_list_options : Option (Tweak O)
  pub namespace : String

module _ {O : Type 0} where
  unfoldable pub new_group : String → Option (Tweak O) → Group O
  new_group namespace tweak = record { namespace = namespace; tweak_list_options = tweak }

  unfoldable pub new_version : String → Option (Tweak O) → GroupVersion O
  new_version namespace tweak = record { namespace = namespace; tweak_list_options = tweak }

  unfoldable pub v1alpha1 : Group O → GroupVersion O
  unfolding new_version
  v1alpha1 g = new_version g.namespace g.tweak_list_options

  unfoldable pub analysis_tasks : GroupVersion O → AnalysisTaskInformer O
  analysis_tasks v = record { namespace = v.namespace; tweak_list_options = v.tweak_list_options }

-- `Schedule` of a factory.
unfoldable pub schedule : {C O I : Type 0} → SharedInformerFactory C (Tweak O) I → Group O
unfolding new_group
schedule f = new_group f.namespace f.tweak_list_options

-- `reflect.TypeOf(&AnalysisTask{})`.
abbrev pub task_type : String
task_type = "*v1alpha1.AnalysisTask"

abbrev pub namespace_index : String
namespace_index = "namespace"

abbrev pub TaskFactory : Type 0 → Type 0 → Type 0 → Type 0 → Type 0
TaskFactory O V W I = SharedInformerFactory (VersionedInterface O V W) (Tweak O) I

module _ {O V W I X : Type 0} (cache : CacheLib O V W I X) where
  unfoldable pub new_filtered_analysis_task_informer :
      VersionedInterface O V W → String → ℤ → List String → Option (Tweak O) → W → I × W
  new_filtered_analysis_task_informer client namespace resync_period indexers tweak =
      cache.new_shared_index_informer
        (record {
          list_func = λ options. client.list namespace (tweaked tweak options);
          watch_func = λ options. client.watch_tasks namespace (tweaked tweak options);
        })
        task_type resync_period indexers

  unfoldable pub new_analysis_task_informer :
      VersionedInterface O V W → String → ℤ → List String → W → I × W
  unfolding new_filtered_analysis_task_informer
  new_analysis_task_informer client namespace resync_period indexers =
      new_filtered_analysis_task_informer client namespace resync_period indexers none

  unfoldable pub default_informer :
      AnalysisTaskInformer O → VersionedInterface O V W → ℤ → W → I × W
  unfolding new_filtered_analysis_task_informer
  default_informer i client resync_period =
      new_filtered_analysis_task_informer client i.namespace resync_period (namespace_index ∷ [])
        i.tweak_list_options

  unfoldable pub informer :
      AnalysisTaskInformer O → TaskFactory O V W I → W → I × TaskFactory O V W I × W
  unfolding default_informer informer_for
  informer i = informer_for task_type (default_informer i)

  -- The indexer that the lister of analysis tasks reads.
  unfoldable pub lister :
      AnalysisTaskInformer O → TaskFactory O V W I → W → X × TaskFactory O V W I × W
  unfolding informer
  lister i f w = let made = informer i f w in (cache.get_indexer made.0, made.1, made.2)

pub record GroupVersionResource : Type 0 where
  pub group : String
  pub version : String
  pub resource : String

pub record GenericInformer (I : Type 0) : Type 0 where
  pub informer : I
  pub group : String
  pub resource : String

abbrev pub tasks_resource : GroupVersionResource
tasks_resource = record {
  group = "schedule.kubesphere.io";
  version = "v1alpha1";
  resource = "analysistasks";
}

abbrev pub eqb_resource : GroupVersionResource → GroupVersionResource → Bool
eqb_resource a b = a.group == b.group && a.version == b.version && a.resource == b.resource

-- `ForResource`; `shown` is how `%v` prints a resource.
unfoldable pub for_resource :
    {O V W I X : Type 0}
    → CacheLib O V W I X
    → (GroupVersionResource → String)
    → GroupVersionResource
    → TaskFactory O V W I
    → W
    → Result (GenericInformer I) × TaskFactory O V W I × W
unfolding informer schedule v1alpha1 analysis_tasks
for_resource cache shown resource f w =
    let made = informer cache (analysis_tasks (v1alpha1 (schedule f))) f w in
    if eqb_resource resource tasks_resource
    then (
      ok (record { informer = made.0; group = resource.group; resource = resource.resource }),
      made.1,
      made.2,
    )
    else (failed (join "no informer found for " (shown resource)), f, w)

-- `Informer` and `Lister` of a generic informer; the second is `cache.NewGenericLister`, given here.
unfoldable pub generic_lister :
    {X I G : Type 0} → (X → String → String → G) → (I → X) → GenericInformer I → G
generic_lister new_generic_lister get_indexer i =
    new_generic_lister (get_indexer i.informer) i.group i.resource
