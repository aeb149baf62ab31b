-- ===== src/Common/Errors.antt =====
-- Go errors: the sentinels that the program tests by `errors.Is`, and wrapping by `%w`.
use mathlib.Core.Path.{◌≡◌, refl}
use mathlib.Core.Logic.{◌⊎◌, inl, inr}
use mathlib.Core.Bool.{Bool, true, false}
use mathlib.Core.List.{◌++◌}
use mathlib.Core.Option.{Option, none, some}
use disc_echo_dd.Common.Texts.{Text, codes}

pub data GoError : Type 0 where
  not_found context_canceled deadline_exceeded stopped : GoError
  invalid_job_kind_for_retry invalid_job_state_for_retry : GoError
  message : Text → GoError
  wrapped : Text → GoError → GoError

-- `err.Error()`; what is wrapped stands behind a prefix and a colon.
unfoldable pub error_text : GoError → Text
error_text not_found = codes "state: not found"
error_text context_canceled = codes "context canceled"
error_text deadline_exceeded = codes "context deadline exceeded"
error_text stopped = codes "orchestrator: stopped"
error_text invalid_job_kind_for_retry = codes "state: job is not a transcode job"
error_text invalid_job_state_for_retry = codes "state: job is not in a retryable state"
error_text (message m) = m
error_text (wrapped m e) = m ++ codes ": " ++ error_text e

-- `errors.Is(err, context.Canceled) || errors.Is(err, context.DeadlineExceeded)`
unfoldable pub is_cancellation : GoError → Bool
is_cancellation context_canceled = true
is_cancellation deadline_exceeded = true
is_cancellation (wrapped m e) = is_cancellation e
is_cancellation _ = false

pub data Result {ℓ} (A : Type ℓ) : Type ℓ where
  ok : A → Result A
  err : GoError → Result A

-- The error that a call returns beside its value.
abbrev pub error_of {ℓ} : {A : Type ℓ} → Result A → Option GoError
error_of (ok a) = none
error_of (err e) = some e

pub Result-cases {ℓ} :
    {A : Type ℓ} (r : Result A) → ((a : A) × (r ≡ ok a)) ⊎ ((e : GoError) × (r ≡ err e))
Result-cases (ok a) = inl (a, refl)
Result-cases (err e) = inr (e, refl)
