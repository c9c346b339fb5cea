-- ===== src/Process/LoopLaws.antt =====
-- What holds of the loop of the controllers after any sequence of steps.
use kubesphere_schedule.Process.Config.{Config}
use kubesphere_schedule.Process.Loop.{
  sends_on_closed, ends, begins, receives, reconfigures, then_turn, no_turn, stops, Turn, begin_run,
  on_error, Turns, is_cancelled, Loop, start_loop, on_done, on_config, end_run,
}
use kubesphere_schedule.Process.Options.{merge_config, ControllerManagerOptions}
use kubesphere_schedule.Base.{
  ap, refl, false, ◌≤◌, ◌≡◌, ◌∷◌, ◌++◌, ℕ, suc, some, none, ltb, leb, is_some, if◌then◌else◌, arith,
  after, [], String, Option, List, All,
}

-- The options of the start with the two parts that a configuration sets.
abbrev pub configured :
    {F : Type 0} → ControllerManagerOptions F → Option (Config F) → ControllerManagerOptions F
configured s none = s
configured s (some cfg) = record s {
  kubernetes_options = cfg.kubernetes_options;
  schedule_options = cfg.schedule_options;
}

-- The configuration that a step brings, or the older one.
abbrev pub newer : {F : Type 0} {l m : Loop F} → Turn l m → Option (Config F) → Option (Config F)
newer (stops l open') old = old
newer (reconfigures cfg l open') old = some cfg
newer (receives err before after l open' e) old = old
newer (begins n l e) old = old
newer (ends answer c before after l e) old = old
newer (sends_on_closed l closed waits) old = old

-- The last configuration of a sequence of steps.
abbrev pub last_config : {F : Type 0} {l m : Loop F} → Turns l m → Option (Config F)
last_config (no_turn l) = none
last_config (then_turn l m n turns turn) = newer turn (last_config turns)

-- The contexts that are cancelled are exactly the older ones, and the current one once `Run` has
-- returned; every context in `run` is one that was made.
pub record IsSound {F : Type 0} (l : Loop F) : Type 0 where
  pub cancelled_iff :
      (c : ℕ) → is_cancelled l c ≡ (if is_some l.result then leb c l.ictx else ltb c l.ictx)
  pub made : All (λ c. c ≤ l.ictx) l.running

All-le-suc : (n : ℕ) (cs : List ℕ) → All (λ c. c ≤ n) cs → All (λ c. c ≤ suc n) cs
All-le-suc n [] h = tt
All-le-suc n (c ∷ cs) (h, hs) = (omega arith, All-le-suc n cs hs)

All-remove :
    (n : ℕ) (before : List ℕ) (c : ℕ) (after : List ℕ)
    → All (λ c. c ≤ n) (before ++ (c ∷ after))
    → All (λ c. c ≤ n) (before ++ after)
All-remove n [] c after (h, hs) = hs
All-remove n (b ∷ before) c after (h, hs) = (h, All-remove n before c after hs)

module _ {F : Type 0} where
  start_loop-IsSound : (s : ControllerManagerOptions F) → IsSound (start_loop s)
  unfolding start_loop is_cancelled
  start_loop-IsSound s = record { cancelled_iff = λ c. ground arith; made = tt }

  on_config-IsSound :
      (cfg : Config F) (l : Loop F) → l.result ≡ none → IsSound l → IsSound (on_config cfg l)
  unfolding on_config is_cancelled
  on_config-IsSound cfg l open' h = record {
    cancelled_iff = λ c. ground (arith, h.cancelled_iff c);
    made = All-le-suc l.ictx l.running h.made;
  }

  end_run-IsSound :
      (answer : Option String) (c : ℕ) (before after : List ℕ) (l : Loop F)
      → l.running ≡ before ++ (c ∷ after)
      → IsSound l
      → IsSound (end_run answer (before ++ after) l)
  unfolding end_run is_cancelled
  end_run-IsSound none c before after l e h = record {
    cancelled_iff = h.cancelled_iff;
    made = All-remove l.ictx before c after (rw e at h.made);
  }
  end_run-IsSound (some err) c before after l e h = record {
    cancelled_iff = h.cancelled_iff;
    made = All-remove l.ictx before c after (rw e at h.made);
  }

  Turn-IsSound : (l m : Loop F) → Turn l m → IsSound l → IsSound m
  unfolding on_done on_error begin_run is_cancelled
  Turn-IsSound _ _ (stops l open') h = record {
    cancelled_iff = λ c. ground (arith, h.cancelled_iff c);
    made = h.made;
  }
  Turn-IsSound _ _ (reconfigures cfg l open') h = on_config-IsSound cfg l open' h
  Turn-IsSound _ _ (receives err before after l open' e) h = record {
    cancelled_iff = λ c. ground (arith, h.cancelled_iff c);
    made = h.made;
  }
  Turn-IsSound _ _ (begins n l e) h = record {
    cancelled_iff = h.cancelled_iff;
    made = (omega arith, h.made);
  }
  Turn-IsSound _ _ (ends answer c before after l e) h = end_run-IsSound answer c before after l e h
  Turn-IsSound _ _ (sends_on_closed l closed waits) h = record {
    cancelled_iff = h.cancelled_iff;
    made = h.made;
  }

  Turn-configured :
      (s : ControllerManagerOptions F) (old : Option (Config F)) (l m : Loop F) (turn : Turn l m)
      → l.options ≡ configured s old
      → m.options ≡ configured s (newer turn old)
  unfolding on_done on_config on_error begin_run end_run merge_config
  Turn-configured s old _ _ (stops l open') h = h
  Turn-configured s none _ _ (reconfigures cfg l open') h = ap (λ x. merge_config x cfg) h
  Turn-configured s (some old) _ _ (reconfigures cfg l open') h = ap (λ x. merge_config x cfg) h
  Turn-configured s old _ _ (receives err before after l open' e) h = h
  Turn-configured s old _ _ (begins n l e) h = h
  Turn-configured s old _ _ (ends none c before after l e) h = h
  Turn-configured s old _ _ (ends (some err) c before after l e) h = h
  Turn-configured s old _ _ (sends_on_closed l closed waits) h = h

  -- Whatever the order of configurations, errors, the stop signal and goroutines: a context is
  -- cancelled exactly where it is older than the current one, or the current one after `Run` has
  -- returned; every context that controllers run with is one that was made; and the options are
  -- those of the start, with the clients' and the schedule's parts of the last configuration that has
  -- arrived, if there is one.
  pub Turns-IsSound :
      (s : ControllerManagerOptions F) (l : Loop F) (turns : Turns (start_loop s) l)
      → IsSound l × (l.options ≡ configured s (last_config turns))
  unfolding start_loop
  Turns-IsSound s l turns = (sound _ l turns (start_loop-IsSound s), options _ l turns refl)
    where
      sound : (k l : Loop F) → Turns k l → IsSound k → IsSound l
      sound _ _ (no_turn k) h = h
      sound _ _ (then_turn k m l turns turn) h = Turn-IsSound m l turn (sound k m turns h)

      options :
          (k l : Loop F) (turns : Turns k l)
          → k.options ≡ s
          → l.options ≡ configured s (last_config turns)
      options _ _ (no_turn k) h = h
      options _ _ (then_turn k m l turns turn) h =
          Turn-configured s (last_config turns) m l turn (options k m turns h)

  -- A configuration that arrives before the first goroutine has read `ictx` leaves two goroutines
  -- that run controllers with one context, which is not cancelled: for all options and every such
  -- configuration there is this sequence of steps.
  pub Turns-doubled :
      (s : ControllerManagerOptions F) (cfg : Config F)
      → (l : Loop F) × Turns (start_loop s) l
        × (l.running ≡ l.ictx ∷ l.ictx ∷ [])
        × (is_cancelled l l.ictx ≡ false)
        × (l.result ≡ none)
  unfolding start_loop on_config begin_run is_cancelled
  Turns-doubled s cfg =
      let l = on_config cfg (start_loop s) in
      let m = begin_run 1 l in
      (
        begin_run 0 m,
        then_turn _ m _
            (then_turn _ l _ (then_turn _ (start_loop s) _ (no_turn _) (reconfigures cfg _ refl))
              (begins 1 l refl))
            (begins 0 m refl),
        refl,
        refl,
        refl,
      )
