-- ===== src/Process/Loop.antt =====
-- `Run` of cmd/controller/app/server.go: the loop that restarts the controllers with each new
-- configuration, beside the goroutines that run them. A context is the number of the `WithCancel`
-- that made it; what cancels one is `cancelFunc`.
use kubesphere_schedule.Process.Options.{merge_config, ControllerManagerOptions}
use kubesphere_schedule.Process.Config.{Config}
use kubesphere_schedule.Base.{
  ◌≢◌, ◌≡◌, ◌∷◌, ◌++◌, ℕ, true, suc, some, none, is_some, false, eqb, any, [], String, Option, List,
  Bool,
}

pub record Loop (F : Type 0) : Type 0 where
  -- `s`, `ictx` with `cancelFunc`, and the contexts that are cancelled.
  pub options : ControllerManagerOptions F
  pub ictx : ℕ
  pub cancelled : List ℕ
  -- The goroutines that have not yet read `s` and `ictx`, the contexts of those in `run`, and the
  -- errors of those that wait to send on `errCh`, which has no buffer.
  pub spawned : ℕ
  pub running : List ℕ
  pub sending : List String
  -- What `Run` has returned, an error or nil; and whether a goroutine has sent on the closed channel.
  pub result : Option (Option String)
  pub panics : Bool

unfoldable pub is_cancelled : {F : Type 0} → Loop F → ℕ → Bool
is_cancelled l c = any (eqb c) l.cancelled

abbrev pub cancel : {F : Type 0} → Loop F → List ℕ
cancel l = l.ictx ∷ l.cancelled

-- In front of the loop.
unfoldable pub start_loop : {F : Type 0} → ControllerManagerOptions F → Loop F
start_loop s = record {
  options = s;
  ictx = 0;
  cancelled = [];
  spawned = 1;
  running = [];
  sending = [];
  result = none;
  panics = false;
}

-- The three cases of `select`.
unfoldable pub on_done : {F : Type 0} → Loop F → Loop F
on_done l = record l { cancelled = cancel l; result = some none }

unfoldable pub on_config : {F : Type 0} → Config F → Loop F → Loop F
unfolding merge_config
on_config cfg l = record l {
  cancelled = cancel l;
  options = merge_config l.options cfg;
  ictx = suc l.ictx;
  spawned = suc l.spawned;
}

unfoldable pub on_error : {F : Type 0} → String → List String → Loop F → Loop F
on_error err others l = record l {
  cancelled = cancel l;
  result = some (some err);
  sending = others;
}

-- A goroutine begins: it reads the variables as they are then.
unfoldable pub begin_run : {F : Type 0} → ℕ → Loop F → Loop F
begin_run n l = record l { spawned = n; running = l.ictx ∷ l.running }

-- `run` returns in the goroutine of one context.
unfoldable pub end_run : {F : Type 0} → Option String → List ℕ → Loop F → Loop F
end_run none others l = record l { running = others }
end_run (some err) others l = record l { running = others; sending = err ∷ l.sending }

-- One step of `Run` or of a goroutine. `klog.Fatalf` in `run`, which ends the process, is none.
pub data Turn {F : Type 0} : Loop F → Loop F → Type 0 where
  stops : (l : Loop F) → l.result ≡ none → Turn l (on_done l)
  reconfigures : (cfg : Config F) (l : Loop F) → l.result ≡ none → Turn l (on_config cfg l)
  receives :
      (err : String) (before after : List String) (l : Loop F)
      → l.result ≡ none
      → l.sending ≡ before ++ (err ∷ after)
      → Turn l (on_error err (before ++ after) l)
  begins : (n : ℕ) (l : Loop F) → l.spawned ≡ suc n → Turn l (begin_run n l)
  ends :
      (answer : Option String) (c : ℕ) (before after : List ℕ) (l : Loop F)
      → l.running ≡ before ++ (c ∷ after)
      → Turn l (end_run answer (before ++ after) l)
  sends_on_closed :
      (l : Loop F) → is_some l.result ≡ true → l.sending ≢ [] → Turn l (record l { panics = true })

pub data Turns {F : Type 0} : Loop F → Loop F → Type 0 where
  no_turn : (l : Loop F) → Turns l l
  then_turn : (l m n : Loop F) → Turns l m → Turn m n → Turns l n
