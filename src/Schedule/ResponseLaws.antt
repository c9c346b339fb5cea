-- ===== src/Schedule/ResponseLaws.antt =====
-- What the handlers' answers have in common.
use kubesphere_schedule.Schedule.Handlers.{args_of}
use kubesphere_schedule.Schedule.Operator.{GoResult}
use kubesphere_schedule.Schedule.Cluster.{ApiError}
use kubesphere_schedule.Schedule.Response.{
  code_of_error, nil_arg, value_arg, error_arg, value, entity, Arg, write_entity, handle_not_found,
  handle, handle_bad_request, result, handle_error_api, sanitize, handle_error, output,
}
use kubesphere_schedule.Base.{
  inr, inl, Bool-cases, ◌⊎◌, ◌≢◌, ◌≡◌, ◌↔◌, ◌&&◌, true, some, refl, not, none, is_char, false,
  arith, String, List, Bool,
}
use Prim.Native.String.{[], ◌∷◌}

-- Neither `<` nor `>` occurs.
unfoldable pub is_markup_free : String → Bool
is_markup_free [] = true
is_markup_free (c ∷ s) = not (is_char b'<' c) && not (is_char b'>' c) && is_markup_free s

-- No text that has gone through the sanitizer holds `<` or `>`, whatever the text.
pub sanitize-is_markup_free : (s : String) → is_markup_free (sanitize s) ≡ true
unfolding sanitize is_markup_free
sanitize-is_markup_free [] = refl
sanitize-is_markup_free (c ∷ s) =
    let rest = sanitize-is_markup_free s in
    elim (Bool-cases (is_char b'&' c)) [
      | inl amp ↦ rw (amp) rest
      | inr no_amp ↦ elim (Bool-cases (is_char b'<' c)) [
        | inl lt ↦ rw (no_amp, lt) rest
        | inr no_lt ↦ elim (Bool-cases (is_char b'>' c)) [
          | inl gt ↦ rw (no_amp, no_lt, gt) rest
          | inr no_gt ↦ rw (no_amp, no_lt, no_gt, no_lt, no_gt) rest
        ]
      ]
    ]

-- Whatever arguments `Result` gets, the body that `Output` writes is no object.
pub output-ne-value :
    {A : Type 0} (args : List (Arg A)) (v : A) → (output (result args)).body ≢ entity (value v)
unfolding output result handle_bad_request handle_not_found handle write_entity
output-ne-value List.[] v h = cc
output-ne-value (List.◌∷◌ (error_arg e1) args) v h = ground arith
output-ne-value (List.◌∷◌ nil_arg List.[]) v h = cc
output-ne-value (List.◌∷◌ (value_arg x) List.[]) v h = cc
output-ne-value (List.◌∷◌ nil_arg (List.◌∷◌ nil_arg args)) v h = cc
output-ne-value (List.◌∷◌ nil_arg (List.◌∷◌ (error_arg e) args)) v h = ground arith
output-ne-value (List.◌∷◌ nil_arg (List.◌∷◌ (value_arg x) args)) v h = cc
output-ne-value (List.◌∷◌ (value_arg x) (List.◌∷◌ nil_arg args)) v h = cc
output-ne-value (List.◌∷◌ (value_arg x) (List.◌∷◌ (error_arg e) args)) v h = ground arith
output-ne-value (List.◌∷◌ (value_arg x) (List.◌∷◌ (value_arg y) args)) v h = cc

-- The two `HandleError`s write the same, unless an error that is not found carries another code than 404.
pub handle_error-agree_iff :
    {A : Type 0} (err : ApiError)
    → (handle_error {A = A} err ≡ handle_error_api err)
      ↔ ((err.not_found ≡ false) ⊎ (code_of_error err.status ≡ 404))
unfolding handle_error handle_error_api handle
handle_error-agree_iff err = ground arith

-- For an object and an error as the arguments of `Result`, `Output` writes the status 200 exactly
-- where the error is nil.
pub output-ok_iff :
    {T : Type 0} (res : GoResult T)
    → ((output (result (args_of res))).status_code ≡ 200) ↔ (res.1 ≡ none)
unfolding output result handle_bad_request handle_not_found handle write_entity
output-ok_iff (item, none) = ground arith
output-ok_iff (item, some e) = ground arith
