-- ===== src/Apiserver/Serving.antt =====
-- `Run` of pkg/apiserver/apiserver.go, and the filters of the container. The listening itself is the
-- library's.
use kubesphere_schedule.Schedule.Response.{text, Response}
use kubesphere_schedule.Base.{
  ◌≡◌, ℕ, true, some, refl, none, ltb, is_some, if◌then◌else◌, false, arith, String, Option, Bool,
}

-- What `Run` has done: the stop signal of its caller, the context that it makes itself, the shutdown
-- of the server, and what it returned.
pub record Serving : Type 0 where
  pub signalled : Bool
  pub own_cancelled : Bool
  pub shut_down : Bool
  pub result : Option (Option String)

-- Where `waitForResourceSync` fails its error is returned, and nothing is listened to.
unfoldable pub begin_serving : Bool → Option String → Serving
begin_serving signalled sync_err = record {
  signalled = signalled;
  own_cancelled = false;
  shut_down = false;
  result = elim sync_err [ none ↦ none | some err ↦ some (some err) ];
}

-- The listener ends with an error, `Run` returns it, and the deferred `cancel` runs.
unfoldable pub end_serving : Option String → Serving → Serving
end_serving err s = record s { own_cancelled = true; result = some err }

-- The goroutine that waits for `ctx`, which by then is the context made from `context.Background`.
pub data ServingStep : Serving → Serving → Type 0 where
  signals : (s : Serving) → ServingStep s (record s { signalled = true })
  listener_ends :
      (err : Option String) (s : Serving) → s.result ≡ none → ServingStep s (end_serving err s)
  shuts_down :
      (s : Serving) → s.own_cancelled ≡ true → ServingStep s (record s { shut_down = true })

pub data ServingSteps : Serving → Serving → Type 0 where
  no_serving_step : (s : Serving) → ServingSteps s s
  then_serving_step : (s t u : Serving) → ServingSteps s t → ServingStep t u → ServingSteps s u

-- The own context ends only with `Run`, and the server is shut down only then.
IsUnstopped : Serving → Type 0
IsUnstopped s =
    (s.own_cancelled ≡ true → is_some s.result ≡ true)
    × (s.shut_down ≡ true → s.own_cancelled ≡ true)

ServingStep-IsUnstopped : (s t : Serving) → ServingStep s t → IsUnstopped s → IsUnstopped t
unfolding IsUnstopped end_serving
ServingStep-IsUnstopped _ _ (signals s) h = h
ServingStep-IsUnstopped _ _ (listener_ends err s open') h = (λ e. refl, λ e. refl)
ServingStep-IsUnstopped _ _ (shuts_down s cancelled) h = (h.0, λ e. cancelled)

ServingSteps-IsUnstopped : (s t : Serving) → ServingSteps s t → IsUnstopped s → IsUnstopped t
ServingSteps-IsUnstopped _ _ (no_serving_step s) h = h
ServingSteps-IsUnstopped _ _ (then_serving_step s t u steps step) h =
    ServingStep-IsUnstopped t u step (ServingSteps-IsUnstopped s t steps h)

-- The stop signal never shuts the server down: in whatever order the signal, the end of the listener
-- and the goroutine come, the server is shut down only when `Run` has returned already.
pub ServingSteps-unstopped :
    (signalled : Bool) (sync_err : Option String) (s : Serving)
    → ServingSteps (begin_serving signalled sync_err) s
    → s.shut_down ≡ true
    → is_some s.result ≡ true
unfolding IsUnstopped begin_serving
ServingSteps-unstopped signalled sync_err s steps down =
    let h = ServingSteps-IsUnstopped _ s steps (λ e. ground arith, λ e. ground arith) in
    h.0 (h.1 down)

-- `logStackOnRecover`: the status and the body, whatever the panic.
unfoldable pub log_stack_on_recover : {A : Type 0} → Response A
log_stack_on_recover = record { status_code = 500; body = text "Internal server error" }

-- `logRequestAndResponse`: the verbosity of the line behind an answer.
unfoldable pub log_verbosity : ℕ → ℕ
log_verbosity status_code = if ltb 400 status_code then 0 else 4
