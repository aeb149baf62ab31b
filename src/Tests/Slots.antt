-- ===== src/Tests/Slots.antt =====
-- The slots of the pool under a race of two workers.
use disc_echo_dd.Common.{◌≤◌, ◌≡◌, refl, List, [], ◌∷◌, pos, arith}
use disc_echo_dd.Jobs.Compute.Slots.{
  normalise_concurrency, new_compute, advance, step_worker, SlotOp, run_slots,
}
use disc_echo_dd.Jobs.Compute.Slots.Bound.{holders, slots_balanced}

-- Both workers read the count, the first takes a slot, and the second loses the race.
abbrev race : List SlotOp
race =
    SlotOp.work 0
    ∷ SlotOp.work 0
    ∷ SlotOp.work 1
    ∷ SlotOp.work 1
    ∷ SlotOp.work 0
    ∷ SlotOp.work 1
    ∷ []

slots_balanced_example :
    let s = run_slots (SlotOp.set (pos 1) ∷ race) (new_compute (pos 2)) in
    (holders s.workers ≡ s.in_flight) × (s.in_flight ≤ 2) × (1 ≤ s.limit)
unfolding normalise_concurrency
slots_balanced_example =
    slots_balanced 2 (pos 2) (SlotOp.set (pos 1) ∷ race) (omega arith) (omega arith, tt)

-- The worker that lost the race waits for a token although a slot is free and no token is there.
race_parks :
    let s = run_slots race (new_compute (pos 2)) in
    (s.in_flight ≡ 1)
    × (s.limit ≡ 2)
    × (s.wake ≡ 0)
    × ((step_worker 1 s.limit s.workers s.in_flight s.wake).0 ≡ s.workers)
unfolding run_slots new_compute normalise_concurrency step_worker advance
race_parks = (refl, refl, refl, refl)
