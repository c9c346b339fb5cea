-- ===== src/Generated/Sessions.antt =====
-- Sequences of calls of a factory of shared informers: `InformerFor`, `Start` and `WaitForCacheSync` of
-- pkg/client/informers/externalversions/factory.go.
use kubesphere_schedule.Base.Int.{ℤ}
use kubesphere_schedule.Generated.Factory.{
  with_namespace, with_tweak_list_options, with_custom_resync_config, apply_options,
  new_with_options, SharedInformerOption, is_started, start, SharedInformerFactory, NewInformer,
  informer_for,
}
use kubesphere_schedule.Generated.FactoryLaws.{
  start-runs_of, runs_of-append, informer_for-kept, informer_for-is_started, informer_for-known,
  start-informers, runs_of, informer_for-lookup, as_count,
}
use kubesphere_schedule.Base.{
  refl, map, false, ◌≡◌, ◌∷◌, ◌∙◌, ◌++◌, sym, some, lookup, arith, ap, [], String, List,
}

-- A call, with the constructor of the informer or the order in which the map is walked.
pub data FactoryCall (C I W : Type 0) : Type 0 where
  request : String → NewInformer C I W → FactoryCall C I W
  start_all : List (String × I) → FactoryCall C I W

-- The factory, the state its informers are made in, and the goroutines that were begun.
pub record FactorySession (C T I W : Type 0) : Type 0 where
  pub factory : SharedInformerFactory C T I
  pub state : W
  pub runs : List (String × I)

module _ {C T I W : Type 0} where
  unfoldable pub make_call : FactoryCall C I W → FactorySession C T I W → FactorySession C T I W
  unfolding informer_for start
  make_call (request type new_informer) s =
      let made = informer_for type new_informer s.factory s.state in
      record s { factory = made.1; state = made.2 }
  make_call (start_all walk) s =
      let started = start walk s.factory in
      record s { factory = started.0; runs = s.runs ++ started.1 }

  unfoldable pub make_calls :
      List (FactoryCall C I W) → FactorySession C T I W → FactorySession C T I W
  unfolding make_call
  make_calls [] s = s
  make_calls (call ∷ calls) s = make_calls calls (make_call call s)

-- The options that the package offers.
pub data FactoryOption (T : Type 0) : Type 0 where
  custom_resync : List (String × ℤ) → FactoryOption T
  tweak_list_options : T → FactoryOption T
  in_namespace : String → FactoryOption T

abbrev pub option_of : {C T I : Type 0} → FactoryOption T → SharedInformerOption C T I
option_of (custom_resync config) = with_custom_resync_config config
option_of (tweak_list_options tweak) = with_tweak_list_options tweak
option_of (in_namespace namespace) = with_namespace namespace

-- A new factory, with no goroutine begun.
abbrev pub new_session :
    {C T I W : Type 0} → C → ℤ → List (FactoryOption T) → W → FactorySession C T I W
new_session client default_resync options w = record {
  factory = new_with_options client default_resync (map option_of options);
  state = w;
  runs = [];
}

-- A type's informer has been run once if it is started, and else never.
abbrev pub RunsOnce : {C T I W : Type 0} → FactorySession C T I W → Type 0
RunsOnce s = (type : String) → runs_of type s.runs ≡ as_count (is_started s.factory type)

module _ {C T I W : Type 0} where
  pub make_call-RunsOnce :
      (call : FactoryCall C I W) (s : FactorySession C T I W)
      → RunsOnce s
      → RunsOnce (make_call call s)
  unfolding make_call
  make_call-RunsOnce (request name make) s h type =
      h type ∙ ap as_count (sym (informer_for-is_started name type make s.factory s.state))
  make_call-RunsOnce (start_all walk) s h type = omega (
    arith,
    h type,
    runs_of-append type s.runs (start walk s.factory).1,
    start-runs_of type walk s.factory,
  )

  make_calls-RunsOnce :
      (calls : List (FactoryCall C I W)) (s : FactorySession C T I W)
      → RunsOnce s
      → RunsOnce (make_calls calls s)
  unfolding make_calls
  make_calls-RunsOnce [] s h = h
  make_calls-RunsOnce (call ∷ calls) s h =
      make_calls-RunsOnce calls (make_call call s) (make_call-RunsOnce call s h)

  make_calls-lookup :
      (type : String) (calls : List (FactoryCall C I W)) (s : FactorySession C T I W) {informer : I}
      → lookup type s.factory.informers ≡ some informer
      → lookup type (make_calls calls s).factory.informers ≡ some informer
  unfolding make_calls make_call
  make_calls-lookup type [] s h = h
  make_calls-lookup type (request name make ∷ calls) s h =
      make_calls-lookup type calls (make_call (request name make) s)
        (informer_for-lookup name type make s.factory s.state h)
  make_calls-lookup type (start_all walk ∷ calls) s h =
      make_calls-lookup type calls (make_call (start_all walk) s)
        (rw (start-informers walk s.factory) h)

  -- The informer of a type is made once: whatever calls are made of the factory after a request for
  -- the type, a further request answers with the informer of the first, whatever constructor it
  -- brings, and changes neither the factory nor the state in which informers are made.
  pub informer_for-once :
      (type : String) (first later : NewInformer C I W) (s : FactorySession C T I W)
      (calls : List (FactoryCall C I W))
      → (let after = make_calls calls (make_call (request type first) s) in
          informer_for type later after.factory after.state
          ≡ ((informer_for type first s.factory s.state).0, after.factory, after.state))
  unfolding make_call
  informer_for-once type first later s calls =
      let after = make_calls calls (make_call (request type first) s) in
      informer_for-known type later after.factory after.state (
        make_calls-lookup type calls (make_call (request type first) s)
          (informer_for-kept type first s.factory s.state))

module _ {C T I : Type 0} where
  option_of-is_started :
      (type : String) (option : FactoryOption T) (f : SharedInformerFactory C T I)
      → is_started (option_of option f) type ≡ is_started f type
  unfolding is_started with_custom_resync_config with_tweak_list_options with_namespace
  option_of-is_started type (custom_resync config) f = refl
  option_of-is_started type (tweak_list_options tweak) f = refl
  option_of-is_started type (in_namespace namespace) f = refl

  apply_options-is_started :
      (type : String) (options : List (FactoryOption T)) (f : SharedInformerFactory C T I)
      → is_started (apply_options (map option_of options) f) type ≡ is_started f type
  unfolding apply_options
  apply_options-is_started type [] f = refl
  apply_options-is_started type (option ∷ options) f =
      apply_options-is_started type options (option_of option f)
      ∙ option_of-is_started type option f

pub new_with_options-is_started :
    {C T : Type 0} (I : Type 0) (type : String) (client : C) (default_resync : ℤ)
    (options : List (FactoryOption T))
    → is_started {I = I} (new_with_options client default_resync (map option_of options)) type
      ≡ false
unfolding new_with_options is_started lookup
new_with_options-is_started I type client default_resync options =
    apply_options-is_started type options _

module _ {C T I : Type 0} where
  -- From a new factory, whatever its options, and after any calls of `InformerFor` and `Start`, in
  -- whatever order `Start` walks its map: an informer of each type has been run exactly once if the
  -- factory marks the type as started, and never if not.
  pub make_calls-runs_of :
      {W : Type 0} (client : C) (default_resync : ℤ) (options : List (FactoryOption T)) (w : W)
      (calls : List (FactoryCall C I W)) (type : String)
      → (let after = make_calls calls (new_session {T = T} client default_resync options w) in
          runs_of type after.runs ≡ as_count (is_started after.factory type))
  make_calls-runs_of client default_resync options w calls =
      make_calls-RunsOnce calls (new_session client default_resync options w)
        λ type. ap as_count (sym (new_with_options-is_started I type client default_resync options))

  -- No option brings informers.
  pub apply_options-informers :
      (options : List (FactoryOption T)) (f : SharedInformerFactory C T I)
      → (apply_options (map option_of options) f).informers ≡ f.informers
  unfolding apply_options with_custom_resync_config with_tweak_list_options with_namespace
  apply_options-informers [] f = refl
  apply_options-informers (custom_resync config ∷ options) f =
      apply_options-informers options (with_custom_resync_config config f)
  apply_options-informers (tweak_list_options tweak ∷ options) f =
      apply_options-informers options (with_tweak_list_options tweak f)
  apply_options-informers (in_namespace namespace ∷ options) f =
      apply_options-informers options (with_namespace namespace f)

pub new_with_options-informers :
    {C T : Type 0} (I : Type 0) (client : C) (default_resync : ℤ) (options : List (FactoryOption T))
    → (new_with_options {I = I} client default_resync (map option_of options)).informers ≡ []
unfolding new_with_options
new_with_options-informers I client default_resync options = apply_options-informers options _
