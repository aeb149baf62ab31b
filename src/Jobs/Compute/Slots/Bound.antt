-- ===== src/Jobs/Compute/Slots/Bound.antt =====
-- No interleaving of the workers and of changes of the limit loses a slot or takes too many.
use disc_echo_dd.Common.{
  ℕ, zero, suc, ◌+◌, ◌≤◌, ◌≡◌, refl, Bool, true, false, ◌&&◌, List, [], ◌∷◌, ltb, ◌==◌,
  if◌then◌else◌, Bool-cases, inl, inr, ℤ, pos, negsuc, arith, All,
}
use disc_echo_dd.Jobs.Compute.Slots.{
  send_wakes, normalise_concurrency, Phase, Slots, set_concurrency, new_compute, advance,
  step_worker, SlotOp, run_slots,
}

-- The slots that a worker holds.
abbrev hold : Phase → ℕ
hold Phase.holding = 1
hold _ = 0

abbrev pub holders : List Phase → ℕ
holders [] = 0
holders (p ∷ ps) = hold p + holders ps

-- The limit that a worker has read is a possible one.
abbrev InRange : ℕ → Phase → Type 0
InRange top (Phase.read_limit cur lim) = lim ≤ top
InRange top _ = Unit

record Balanced (top : ℕ) (s : Slots) : Type 0 where
  counted : holders s.workers ≡ s.in_flight
  in_range : All (InRange top) s.workers
  capped : s.in_flight ≤ top
  positive : 1 ≤ s.limit
  limited : s.limit ≤ top

normalise-positive : (n : ℤ) → 1 ≤ normalise_concurrency n
unfolding normalise_concurrency
normalise-positive (negsuc n) = omega arith
normalise-positive (pos n) = ground arith

-- The limits that a list of operations sets are at most `top`.
abbrev pub SetsAtMost : ℕ → List SlotOp → Type 0
SetsAtMost top [] = Unit
SetsAtMost top (SlotOp.work i ∷ ops) = SetsAtMost top ops
SetsAtMost top (SlotOp.set n ∷ ops) = (normalise_concurrency n ≤ top) × SetsAtMost top ops

advance-counts :
    (p : Phase) (limit count wake : ℕ)
    → hold p ≤ count
    → hold (advance p limit count wake).0 + count ≡ hold p + (advance p limit count wake).1
unfolding advance
advance-counts Phase.outside limit count wake h = omega arith
advance-counts (Phase.read_count cur) limit count wake h = omega arith
advance-counts (Phase.read_limit cur lim) limit count wake h = ground arith
advance-counts Phase.parked limit count zero h = omega arith
advance-counts Phase.parked limit count (suc wake) h = omega arith
advance-counts Phase.holding limit count wake h = omega arith
advance-counts Phase.releasing limit count wake h = omega arith

advance-InRange :
    (top : ℕ) (p : Phase) (limit count wake : ℕ)
    → InRange top p
    → limit ≤ top
    → count ≤ top
    → InRange top (advance p limit count wake).0 × ((advance p limit count wake).1 ≤ top)
unfolding advance
advance-InRange top Phase.outside limit count wake r l c = (tt, c)
advance-InRange top (Phase.read_count cur) limit count wake r l c = (l, c)
advance-InRange top (Phase.read_limit cur lim) limit count wake r l c =
    elim (Bool-cases (ltb cur lim && (cur == count))) [
      | inl t ↦ rw t (tt, ground arith)
      | inr t ↦ rw t (tt, c)
    ]
advance-InRange top Phase.parked limit count zero r l c = (tt, c)
advance-InRange top Phase.parked limit count (suc wake) r l c = (tt, c)
advance-InRange top Phase.holding limit count wake r l c = (tt, omega arith)
advance-InRange top Phase.releasing limit count wake r l c = (tt, c)

step_worker-counts :
    (i limit : ℕ) (ps : List Phase) (count wake : ℕ)
    → holders ps ≤ count
    → holders (step_worker i limit ps count wake).0 + count
      ≡ holders ps + (step_worker i limit ps count wake).1
unfolding step_worker
step_worker-counts i limit [] count wake h = omega arith
step_worker-counts zero limit (p ∷ ps) count wake h =
    omega (arith, advance-counts p limit count wake (omega arith))
step_worker-counts (suc i) limit (p ∷ ps) count wake h =
    omega (arith, step_worker-counts i limit ps count wake (omega arith))

step_worker-InRange :
    (top i limit : ℕ) (ps : List Phase) (count wake : ℕ)
    → All (InRange top) ps
    → limit ≤ top
    → count ≤ top
    → All (InRange top) (step_worker i limit ps count wake).0
      × ((step_worker i limit ps count wake).1 ≤ top)
unfolding step_worker
step_worker-InRange top i limit [] count wake r l c = (tt, c)
step_worker-InRange top zero limit (p ∷ ps) count wake (r, rs) l c =
    let (q, d) = advance-InRange top p limit count wake r l c in ((q, rs), d)
step_worker-InRange top (suc i) limit (p ∷ ps) count wake (r, rs) l c =
    let (qs, d) = step_worker-InRange top i limit ps count wake rs l c in ((r, qs), d)

module _ (top : ℕ) where
  set_concurrency-Balanced :
      (n : ℤ) (s : Slots)
      → normalise_concurrency n ≤ top
      → Balanced top s
      → Balanced top (set_concurrency n s)
  unfolding set_concurrency
  set_concurrency-Balanced n s h b = go (s.limit == normalise_concurrency n)
    where
      changed : Slots
      changed = record s {
        limit = normalise_concurrency n;
        wake = send_wakes (normalise_concurrency n) s.wake;
      }

      go : (same : Bool) → Balanced top (if same then s else changed)
      go true = b
      go false = record {
        counted = b.counted;
        in_range = b.in_range;
        capped = b.capped;
        positive = normalise-positive n;
        limited = h;
      }

  run_slots-Balanced :
      (ops : List SlotOp) (s : Slots)
      → SetsAtMost top ops
      → Balanced top s
      → Balanced top (run_slots ops s)
  unfolding run_slots
  run_slots-Balanced [] s h b = b
  run_slots-Balanced (SlotOp.work i ∷ ops) s h b =
      let counts =
        step_worker-counts i s.limit s.workers s.in_flight s.wake (omega (arith, b.counted)) in
      let (ranges, cap) =
        step_worker-InRange top i s.limit s.workers s.in_flight s.wake b.in_range b.limited
          b.capped in
      run_slots-Balanced ops _ h (record {
        counted = omega (arith, counts, b.counted);
        in_range = ranges;
        capped = cap;
        positive = b.positive;
        limited = b.limited;
      })
  run_slots-Balanced (SlotOp.set n ∷ ops) s (h, hs) b =
      run_slots-Balanced ops (set_concurrency n s) hs (set_concurrency-Balanced n s h b)

  new_compute-Balanced : (n : ℤ) → normalise_concurrency n ≤ top → Balanced top (new_compute n)
  unfolding new_compute
  new_compute-Balanced n h = record {
    counted = refl;
    in_range = (tt, (tt, (tt, (tt, (tt, (tt, (tt, (tt, tt))))))));
    capped = omega arith;
    positive = normalise-positive n;
    limited = h;
  }

  -- However the workers interleave and however the limit is changed in between, the count of jobs in
  -- flight is the number of workers that hold a slot; it never exceeds the largest limit that was set;
  -- and the limit in force is at least one.
  pub slots_balanced :
      (n : ℤ) (ops : List SlotOp)
      → normalise_concurrency n ≤ top
      → SetsAtMost top ops
      → let s = run_slots ops (new_compute n) in
        (holders s.workers ≡ s.in_flight) × (s.in_flight ≤ top) × (1 ≤ s.limit)
  slots_balanced n ops h hs =
      let b = run_slots-Balanced ops (new_compute n) hs (new_compute-Balanced n h) in
      (b.counted, b.capped, b.positive)
