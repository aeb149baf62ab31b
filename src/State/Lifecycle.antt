-- ===== src/State/Lifecycle.antt =====
-- daemon/state/disc_lifecycle.go: the lifecycle state of a disc, derived from its jobs.
pub mod Latest
pub mod Meaning
use disc_echo_dd.Common.{
  Bool, true, false, ◌&&◌, not, List, [], ◌∷◌, Option, none, some, text_eq, ltb, if◌then◌else◌,
}
use disc_echo_dd.State.Types.{
  DiscType, has_transcode_half, DiscLifecycleState, JobState, JobKind, Job,
}

-- The kind test of the first loop, where an empty kind counts as a rip.
abbrev pub is_rip_kind : JobKind → Bool
is_rip_kind JobKind.rip = true
is_rip_kind JobKind.legacy = true
is_rip_kind _ = false

abbrev pub is_rip : Job → Bool
is_rip j = is_rip_kind j.kind

abbrev pub is_transcode_kind : JobKind → Bool
is_transcode_kind JobKind.transcode = true
is_transcode_kind _ = false

-- The test of the second loop: a transcode job whose parent is the rip.
abbrev pub is_child_of : Job → Job → Bool
is_child_of rip j = is_transcode_kind j.kind && text_eq j.parent_job_id rip.id

-- One round of a loop over the jobs, with the latest candidate so far.
unfoldable pub newer : (Job → Bool) → Job → Option Job → Option Job
newer p j none = if p j then some j else none
newer p j (some best) = if p j && ltb best.created_at j.created_at then some j else some best

unfoldable pub latest_from : (Job → Bool) → List Job → Option Job → Option Job
unfolding newer
latest_from p [] best = best
latest_from p (j ∷ js) best = latest_from p js (newer p j best)

unfoldable pub latest : (Job → Bool) → List Job → Option Job
unfolding latest_from
latest p js = latest_from p js none

-- The switch on the state of the latest transcode job.
unfoldable pub of_transcode : JobState → DiscLifecycleState
of_transcode JobState.failed = DiscLifecycleState.failed
of_transcode JobState.cancelled = DiscLifecycleState.cancelled
of_transcode JobState.interrupted = DiscLifecycleState.interrupted
of_transcode JobState.done = DiscLifecycleState.done
of_transcode _ = DiscLifecycleState.encoding

-- What follows a rip that is done.
unfoldable pub after_rip : DiscType → List Job → Job → DiscLifecycleState
unfolding of_transcode
after_rip t jobs rip =
    if has_transcode_half t
    then elim (latest (is_child_of rip) jobs) [
      | none ↦ DiscLifecycleState.awaiting_encode
      | some c ↦ of_transcode c.state
    ]
    else DiscLifecycleState.done

-- The switch on the state of the latest rip.
unfoldable pub of_rip : JobState → DiscType → List Job → Job → DiscLifecycleState
unfolding after_rip
of_rip JobState.done t jobs rip = after_rip t jobs rip
of_rip JobState.failed t jobs rip = DiscLifecycleState.failed
of_rip JobState.cancelled t jobs rip = DiscLifecycleState.cancelled
of_rip JobState.interrupted t jobs rip = DiscLifecycleState.interrupted
of_rip _ t jobs rip = DiscLifecycleState.ripping

unfoldable pub derive_lifecycle_state : DiscType → List Job → DiscLifecycleState
unfolding of_rip latest
derive_lifecycle_state t [] = DiscLifecycleState.awaiting_decision
derive_lifecycle_state t (j ∷ js) = elim (latest is_rip (j ∷ js)) [
  | none ↦ DiscLifecycleState.awaiting_decision
  | some rip ↦ of_rip rip.state t (j ∷ js) rip
]
