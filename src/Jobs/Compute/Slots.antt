-- ===== src/Jobs/Compute/Slots.antt =====
-- The slots of the pool, daemon/jobs/compute.go: acquire, release and SetConcurrency, one atomic
-- operation of one worker at a time.
pub mod Bound
use disc_echo_dd.Common.{
  ℕ, zero, suc, ◌+◌, ◌-◌, Bool, true, false, ◌&&◌, List, [], ◌∷◌, ltb, ◌==◌, if◌then◌else◌, ℤ, pos,
  negsuc,
}

abbrev pub max_compute_workers : ℕ
max_compute_workers = 8

unfoldable pub normalise_concurrency : ℤ → ℕ
normalise_concurrency (negsuc n) = 1
normalise_concurrency (pos n) =
    if n == 0 then 1 else if ltb max_compute_workers n then max_compute_workers else n

-- Where a worker stands: at the head of acquire's loop; after `cur := c.inFlight.Load()`; after `lim := c.limit.Load()`; in the
-- select that waits on `wake`; in possession of a slot.
pub data Phase : Type 0 where
  outside : Phase
  read_count : ℕ → Phase
  read_limit : ℕ → ℕ → Phase
  parked : Phase
  holding : Phase
  -- Between the two operations of release.
  releasing : Phase

-- `wake` is the number of tokens in the channel, whose buffer holds maxComputeWorkers.
pub record Slots : Type 0 where
  pub limit : ℕ
  pub in_flight : ℕ
  pub wake : ℕ
  pub workers : List Phase

-- A non-blocking send.
abbrev pub send_wake : ℕ → ℕ
send_wake wake = if ltb wake max_compute_workers then suc wake else wake

-- The loop of SetConcurrency over `next` sends.
unfoldable pub send_wakes : ℕ → ℕ → ℕ
send_wakes zero wake = wake
send_wakes (suc n) wake = send_wakes n (send_wake wake)

unfoldable pub set_concurrency : ℤ → Slots → Slots
unfolding normalise_concurrency send_wakes
set_concurrency n s = if s.limit == normalise_concurrency n then s else record s {
  limit = normalise_concurrency n;
  wake = send_wakes (normalise_concurrency n) s.wake;
}

-- NewCompute: eight workers, none of which holds a slot.
unfoldable pub new_compute : ℤ → Slots
new_compute n = record {
  limit = normalise_concurrency n;
  in_flight = 0;
  wake = 0;
  workers =
      Phase.outside ∷ Phase.outside ∷ Phase.outside ∷ Phase.outside ∷ Phase.outside ∷ Phase.outside
      ∷ Phase.outside ∷ Phase.outside ∷ [];
}

-- The next atomic operation of a worker: its phase, the count and the tokens after it. A parked worker
-- without a token stays where it is. The ends of acquire by Close are left out.
unfoldable pub advance : Phase → ℕ → ℕ → ℕ → Phase × ℕ × ℕ
advance Phase.outside limit count wake = (Phase.read_count count, count, wake)
advance (Phase.read_count cur) limit count wake = (Phase.read_limit cur limit, count, wake)
advance (Phase.read_limit cur lim) limit count wake =
    if ltb cur lim && (cur == count)
    then (Phase.holding, suc cur, wake)
    else (Phase.parked, count, wake)
advance Phase.parked limit count zero = (Phase.parked, count, 0)
advance Phase.parked limit count (suc wake) = (Phase.outside, count, wake)
advance Phase.holding limit count wake = (Phase.releasing, count - 1, wake)
advance Phase.releasing limit count wake = (Phase.outside, count, send_wake wake)

-- One operation of the worker at an index.
unfoldable pub step_worker : ℕ → ℕ → List Phase → ℕ → ℕ → List Phase × ℕ × ℕ
unfolding advance
step_worker i limit [] count wake = ([], count, wake)
step_worker zero limit (p ∷ ps) count wake =
    let (q, c, w) = advance p limit count wake in (q ∷ ps, c, w)
step_worker (suc i) limit (p ∷ ps) count wake =
    let (qs, c, w) = step_worker i limit ps count wake in (p ∷ qs, c, w)

-- What happens next: an operation of one worker, or a change of the limit.
pub data SlotOp : Type 0 where
  work : ℕ → SlotOp
  set : ℤ → SlotOp

unfoldable pub run_slots : List SlotOp → Slots → Slots
unfolding step_worker set_concurrency
run_slots [] s = s
run_slots (SlotOp.work i ∷ ops) s =
    let (ps, c, w) = step_worker i s.limit s.workers s.in_flight s.wake in
    run_slots ops (record s { in_flight = c; wake = w; workers = ps })
run_slots (SlotOp.set n ∷ ops) s = run_slots ops (set_concurrency n s)
