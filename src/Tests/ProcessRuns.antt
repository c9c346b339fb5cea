-- ===== src/Tests/ProcessRuns.antt =====
-- Runs of the controllers' process: options, gates, configuration and the loop. A `float32` is a
-- number.
use kubesphere_schedule.Base.Int.{pos}
use kubesphere_schedule.Process.Gates.{is_controller_enabled_iff, IsUnnamed, IsSwitchedOn}
use kubesphere_schedule.Utils.Slices.{has_string}
use kubesphere_schedule.Clients.Options.{Files, KubernetesOptions, Floats}
use kubesphere_schedule.Process.Config.{Config}
use kubesphere_schedule.Process.Loop.{
  begins, reconfigures, no_turn, then_turn, is_cancelled, on_config, begin_run, Turns, Loop,
  start_loop,
}
use kubesphere_schedule.Process.LoopLaws.{
  last_config, configured, Turns-doubled, Turns-IsSound, IsSound,
}
use kubesphere_schedule.Process.Options.{is_controller_enabled, ControllerManagerOptions}
use kubesphere_schedule.Base.{
  ◌⊎◌, ◌≡◌, ◌∷◌, ◌↔◌, ◌==◌, ℕ, true, some, refl, none, if◌then◌else◌, false, eqb, [], String,
  Option,
}

abbrev pub numbers_32 : Floats ℕ
numbers_32 = record { of_ℕ = λ n. n; is_zero = λ n. eqb n 0 }

abbrev pub some_files : Files
some_files = record {
  user_home_config = "/root/.kube/config";
  stat = λ file. if file == "/root/.kube/config" then none else some "no such file";
  is_not_exist = λ err. true;
}

abbrev pub local_options : KubernetesOptions ℕ
local_options = record {
  kube_config = "/root/.kube/config";
  master = "https://host";
  qps = 50;
  burst = pos 100;
}

abbrev pub local_config : Config ℕ
local_config = record { kubernetes_options = some local_options; schedule_options = none }

abbrev pub gated : ControllerManagerOptions ℕ
gated = record {
  kubernetes_options = some local_options;
  schedule_options = none;
  leader_elect = false;
  leader_election = none;
  webhook_cert_dir = "";
  application_selector = "";
  controller_gates = "*" ∷ "-analysis" ∷ [];
  gops_enabled = false;
}

is_controller_enabled_iff_example : (is_controller_enabled gated "analysis" ≡ true) ↔ (
    IsSwitchedOn "analysis" gated.controller_gates
    ⊎ (IsUnnamed "analysis" gated.controller_gates
        × (has_string gated.controller_gates "*" ≡ true)))
is_controller_enabled_iff_example = is_controller_enabled_iff gated "analysis"

abbrev quoted : String → String
quoted s = s

abbrev unparsed : String → Option String
unparsed s = some "not parsed"

-- The loop behind a new configuration, with one goroutine in `run`.
abbrev reloaded : Loop ℕ
reloaded = begin_run 1 (on_config local_config (start_loop gated))

reloaded-Turns : Turns (start_loop gated) reloaded
unfolding start_loop on_config begin_run
reloaded-Turns =
    then_turn _ (on_config local_config (start_loop gated)) _
      (then_turn _ (start_loop gated) _ (no_turn _) (reconfigures local_config _ refl))
      (begins 1 (on_config local_config (start_loop gated)) refl)

Turns-IsSound_example :
    IsSound reloaded × (reloaded.options ≡ configured gated (last_config reloaded-Turns))
Turns-IsSound_example = Turns-IsSound gated reloaded reloaded-Turns

Turns-doubled_example :
    (l : Loop ℕ) × Turns (start_loop gated) l
    × (l.running ≡ l.ictx ∷ l.ictx ∷ [])
    × (is_cancelled l l.ictx ≡ false)
    × (l.result ≡ none)
Turns-doubled_example = Turns-doubled gated local_config
