-- ===== src/Generated/Clientset.antt =====
-- pkg/client/clientset/versioned/clientset.go and
-- pkg/client/clientset/versioned/typed/schedule/v1alpha1/schedule_client.go. `F` is `float32`, `L` are
-- rate limiters, `N` serializers, `R` REST clients, `X` discovery clients, and `A` the fields of the
-- configuration that the code only copies.
use mathlib.Core.Path.{subst}
use kubesphere_schedule.Base.{
  inr, inl, arith, Option-cases, ◌≡◌, ◌&&◌, true, some, returned, panicked, not, none, is_some,
  is_empty, if◌then◌else◌, String, Outcome, Option, Bool,
}
use kubesphere_schedule.Base.Results.{>>=-succeeds, Result, ok, failed, ◌>>=◌}
use kubesphere_schedule.Base.Int.{ℤ, pos, leb_ℤ, ltb_ℤ}

-- `rest.Config`.
pub record RestConfig (F L N A : Type 0) : Type 0 where
  pub group_version : Option (String × String)
  pub api_path : String
  pub negotiated_serializer : Option N
  pub user_agent : String
  pub qps : F
  pub burst : ℤ
  pub rate_limiter : Option L
  pub others : A

-- `positive` is the comparison of a rate with 0.
pub record RestLib (F L N A R X : Type 0) : Type 0 where
  pub positive : F → Bool
  pub new_token_bucket_rate_limiter : F → ℤ → L
  pub serializer : N
  pub default_kubernetes_user_agent : String
  pub rest_client_for : RestConfig F L N A → Result R
  pub new_discovery_client_for_config : RestConfig F L N A → Result X
  pub new_discovery_client : R → X

pub record Clientset (R X : Type 0) : Type 0 where
  pub discovery_client : X
  pub schedule_v1alpha1 : R

abbrev pub no_burst : String
no_burst =
    "burst is required to be greater than 0 when RateLimiter is not set and QPS is set to greater than 0"

-- `X` where an error makes the call panic.
abbrev pub or_die : {A : Type 0} → Result A → Outcome A
or_die (ok a) = returned a
or_die (failed e) = panicked

both-ok :
    {R X : Type 0} (first : Result R) (second : Result X) (cs : Clientset R X)
    → (first >>= λ schedule. second >>= λ discovery.
        ok (record { discovery_client = discovery; schedule_v1alpha1 = schedule }))
      ≡ ok cs
    → (first ≡ ok cs.schedule_v1alpha1) × (second ≡ ok cs.discovery_client)
both-ok (failed e) second cs h = cc
both-ok (ok schedule) (failed e) cs h = cc
both-ok (ok schedule) (ok discovery) cs h = ground arith

module _ {F L N A R X : Type 0} (lib : RestLib F L N A R X) where
  -- `setConfigDefaults`, which has no error.
  unfoldable pub set_config_defaults : RestConfig F L N A → RestConfig F L N A
  set_config_defaults config = record config {
    group_version = some ("schedule.kubesphere.io", "v1alpha1");
    api_path = "/apis";
    negotiated_serializer = some lib.serializer;
    user_agent =
        if is_empty config.user_agent then lib.default_kubernetes_user_agent else config.user_agent;
  }

  -- `NewForConfig` of the group's client.
  unfoldable pub new_schedule_client : RestConfig F L N A → Result R
  unfolding set_config_defaults
  new_schedule_client config = lib.rest_client_for (set_config_defaults config)

  -- The rate limiter of the shallow copy, or the error for a burst that is not positive.
  unfoldable pub share_rate_limiter : RestConfig F L N A → Result (RestConfig F L N A)
  share_rate_limiter config =
      if not (is_some config.rate_limiter) && lib.positive config.qps
      then if leb_ℤ config.burst (pos 0)
        then failed no_burst
        else ok (record config {
          rate_limiter = some (lib.new_token_bucket_rate_limiter config.qps config.burst);
        })
      else ok config

  unfoldable pub new_for_config : RestConfig F L N A → Result (Clientset R X)
  unfolding share_rate_limiter new_schedule_client
  new_for_config c = do
    config ← share_rate_limiter c
    schedule ← new_schedule_client config
    discovery ← lib.new_discovery_client_for_config config
    ok (record { discovery_client = discovery; schedule_v1alpha1 = schedule })

  unfoldable pub with_discovery : R → Outcome X → Outcome (Clientset R X)
  with_discovery schedule panicked = panicked
  with_discovery schedule (returned discovery) =
      returned (record { discovery_client = discovery; schedule_v1alpha1 = schedule })

  -- `NewForConfigOrDie`, which makes no rate limiter.
  unfoldable pub new_for_config_or_die : RestConfig F L N A → Outcome (Clientset R X)
  unfolding new_schedule_client with_discovery
  new_for_config_or_die c = elim (or_die (new_schedule_client c)) [
    | panicked ↦ panicked
    | returned schedule ↦ with_discovery schedule (or_die (lib.new_discovery_client_for_config c))
  ]

  -- `New`.
  unfoldable pub new_clientset : R → Clientset R X
  new_clientset rest = record {
    discovery_client = lib.new_discovery_client rest;
    schedule_v1alpha1 = rest;
  }

  -- The configuration that the clients of a clientset share.
  abbrev pub limited : RestConfig F L N A → RestConfig F L N A
  limited c = elim c.rate_limiter [
    | some l ↦ c
    | none ↦
        if lib.positive c.qps
        then record c { rate_limiter = some (lib.new_token_bucket_rate_limiter c.qps c.burst) }
        else c
  ]

  share_rate_limiter-ok :
      (c config : RestConfig F L N A)
      → share_rate_limiter c ≡ ok config
      → (config ≡ limited c)
        × (c.rate_limiter ≡ none → lib.positive c.qps ≡ true → ltb_ℤ (pos 0) c.burst ≡ true)
  unfolding share_rate_limiter
  share_rate_limiter-ok c config h = elim (Option-cases c.rate_limiter) [
    | inl missing ↦ ground arith
    | inr (l, given) ↦ ground arith
  ]

  -- A clientset that `NewForConfig` returns has its two clients made with one rate limiter: that of
  -- the configuration, or a new token bucket of its rate and its burst if it has none and the rate is
  -- positive; the burst is then positive, too.
  pub new_for_config-limited :
      (c : RestConfig F L N A) (cs : Clientset R X)
      → new_for_config c ≡ ok cs
      → (lib.rest_client_for (set_config_defaults (limited c)) ≡ ok cs.schedule_v1alpha1)
        × (lib.new_discovery_client_for_config (limited c) ≡ ok cs.discovery_client)
        × (c.rate_limiter ≡ none → lib.positive c.qps ≡ true → ltb_ℤ (pos 0) c.burst ≡ true)
  unfolding new_for_config new_schedule_client
  new_for_config-limited c cs h =
      let (config, made, shared) = >>=-succeeds _ (share_rate_limiter c) cs h in
      let known = share_rate_limiter-ok c config shared in
      let parts =
        both-ok (new_schedule_client config) (lib.new_discovery_client_for_config config) cs made in
      (
        subst (λ x. lib.rest_client_for (set_config_defaults x) ≡ ok cs.schedule_v1alpha1) known.0
            parts.0,
        subst (λ x. lib.new_discovery_client_for_config x ≡ ok cs.discovery_client) known.0 parts.1,
        known.1,
      )
