-- ===== src/Identify/Classify/Spun.antt =====
-- The retries of daemon/identify/classify.go outlast a drive's spin-up.
use disc_echo_dd.Common.{
  Bool, false, [], GoError, err, ℕ, ◌≤◌, ◌<◌, ◌≡◌, ◌∙◌, ap, refl, List, ◌∷◌, Text, Option, none,
  some, length, Result, ok,
}
use disc_echo_dd.State.Types.{DiscType}
use disc_echo_dd.Identify.Watcher.{classify_from_cd_info}
use disc_echo_dd.Identify.Retry.{Attempt, is_ok, has_files, run_cd_info, list_retrying}
use disc_echo_dd.Identify.Retry.Settled.{Passed, retry_settles_first}
use disc_echo_dd.Identify.Classify.{
  MultiProbeClassifier, settled, refined, classify_output, refine_disc_type, classify,
}

-- The answers of a drive that is not ready: cd-info fails, and the listing fails or is empty.
pub data NoOutput : Result Text → Type 0 where
  failed : (e : GoError) → NoOutput (err e)

pub data NoFiles : Result (List Text) → Type 0 where
  failed : (e : GoError) → NoFiles (err e)
  empty : NoFiles (ok [])

-- A turn with such an answer, while the context lives on.
pub record Early {A : Type 0} (P : Result A → Type 0) (a : Attempt A) : Type 0 where
  pub answer : P a.result
  pub alive : a.over ≡ none
  pub waited : a.interrupted ≡ none

Early-Passed :
    {A : Type 0} (P : Result A → Type 0) (good : Result A → Bool) (a : Attempt A)
    → ((r : Result A) → P r → good r ≡ false)
    → Early P a
    → Passed good a
Early-Passed P good a h t = record {
  unusable = h a.result t.answer;
  alive = t.alive;
  waited = t.waited;
}

no_output : (r : Result Text) → NoOutput r → is_ok r ≡ false
no_output _ (NoOutput.failed e) = refl

no_files : (r : Result (List Text)) → NoFiles r → has_files r ≡ false
no_files _ (NoFiles.failed e) = refl
no_files _ NoFiles.empty = refl

-- A drive that fails or lists nothing while it spins up, but answers within the schedule: cd-info
-- on its `n`-th retry with an output of a usable kind, the listing on its `m`-th with a file.
pub record SpinsUp (c : MultiProbeClassifier) (fs_at : ℕ → Attempt (List Text)) (n m : ℕ)
    (out : Text) (base : DiscType) (file : Text) (files : List Text) : Type 0 where
  pub lister : c.fs ≡ some fs_at
  pub runs_in_time : n ≤ length c.backoff
  pub runs_fail : (i : ℕ) → i < n → Early NoOutput (c.runner i)
  pub runs : (c.runner n).result ≡ ok out
  pub kind : classify_from_cd_info out ≡ ok base
  pub lists_in_time : m ≤ length c.backoff
  pub lists_nothing : (i : ℕ) → i < m → Early NoFiles (fs_at i)
  pub lists : (fs_at m).result ≡ ok (file ∷ files)

-- A disc whose drive answers within the schedule is classified by those answers, as if the drive
-- had been ready at once: it is not downgraded by an early failure or an early empty listing.
pub classify_outlasts :
    (c : MultiProbeClassifier) (fs_at : ℕ → Attempt (List Text)) (n m : ℕ) (out : Text)
    (base : DiscType) (file : Text) (files : List Text)
    → SpinsUp c fs_at n m out base file files
    → classify c ≡ ok (refine_disc_type base (record (settled c) { fs = some (ok (file ∷ files)) }))
unfolding classify
classify_outlasts c fs_at n m out base file files s =
    ap (classify_output c) run
    ∙ ap (refined c) s.kind
    ∙ ap (λ o. ok (refine_disc_type base (record (settled c) { fs = o }))) lists_files
  where
    run : run_cd_info c.backoff c.runner ≡ ok out
    run =
        retry_settles_first is_ok c.runner n (length c.backoff) s.runs_in_time
          (λ i lt. Early-Passed NoOutput is_ok (c.runner i) no_output (s.runs_fail i lt))
          (rw s.runs refl)
        ∙ s.runs

    listing : list_retrying c.backoff fs_at ≡ ok (file ∷ files)
    listing =
        retry_settles_first has_files fs_at m (length c.backoff) s.lists_in_time
          (λ i lt. Early-Passed NoFiles has_files (fs_at i) no_files (s.lists_nothing i lt))
          (rw s.lists refl)
        ∙ s.lists

    lists_files : (settled c).fs ≡ some (ok (file ∷ files))
    lists_files =
        ap
          (λ o. elim o as (λ x. Option (Result (List Text))) [
            | none ↦ none
            | some at ↦ some (list_retrying c.backoff at)
          ])
          s.lister
        ∙ ap some listing
