-- ===== src/Identify/Retry.antt =====
-- daemon/identify/classify.go: the three retry loops that outlast a drive's spin-up, those of
-- runCDInfo, retryingFSProber.List and retryingSystemCNFProber.Probe.
pub mod Settled
use disc_echo_dd.Common.{
  ℕ, zero, suc, Bool, true, false, not, Option, none, some, List, Text, is_empty, GoError, Result,
  ok, err, length, if◌then◌else◌,
}

-- What the n-th turn of a loop meets: the answer of the call, the context's error after it, and the
-- context's error where the context ends the wait that follows.
pub record Attempt {ℓ} (A : Type ℓ) : Type ℓ where
  pub result : Result A
  pub over : Option GoError
  pub interrupted : Option GoError

module _ {ℓ} {A : Type ℓ} (good : Result A → Bool) (at : ℕ → Attempt A) where
  -- `left` is the number of waits that the schedule still has.
  unfoldable pub retry : ℕ → ℕ → Result A
  retry zero k =
      let r = (at k).result in if good r then r else elim (at k).over [ some e ↦ err e | none ↦ r ]
  retry (suc left) k =
      let rest = retry left (suc k) in
      let r = (at k).result in
      if good r then r else elim (at k).over [
        | some e ↦ err e
        | none ↦ elim (at k).interrupted [ some e ↦ err e | none ↦ rest ]
      ]

-- `err == nil`
abbrev pub is_ok {ℓ} : {A : Type ℓ} → Result A → Bool
is_ok (ok a) = true
is_ok (err e) = false

-- `lastErr == nil && len(files) > 0`
abbrev pub has_files : Result (List Text) → Bool
has_files (ok List.[]) = false
has_files (ok (List.◌∷◌ f fs)) = true
has_files (err e) = false

-- `lastErr == nil && info != nil`
abbrev pub has_info {ℓ} : {A : Type ℓ} → Result (Option A) → Bool
has_info (ok none) = false
has_info (ok (some i)) = true
has_info (err e) = false

-- A schedule counts by the number of its waits.
unfoldable pub run_cd_info : List ℕ → (ℕ → Attempt Text) → Result Text
unfolding retry
run_cd_info backoff at = retry is_ok at (length backoff) 0

unfoldable pub list_retrying : List ℕ → (ℕ → Attempt (List Text)) → Result (List Text)
unfolding retry
list_retrying backoff at = retry has_files at (length backoff) 0

unfoldable pub probe_retrying {ℓ} :
    {A : Type ℓ} → List ℕ → (ℕ → Attempt (Option A)) → Result (Option A)
unfolding retry
probe_retrying backoff at = retry has_info at (length backoff) 0
