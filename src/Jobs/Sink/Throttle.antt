-- ===== src/Jobs/Sink/Throttle.antt =====
-- The throttle of daemon/jobs/sink.go: at most one progress event in a second, and none lost.
use disc_echo_dd.Common.{
  ℕ, ◌+◌, ◌-◌, ◌*◌, ◌≤◌, ◌≡◌, refl, ap, subst, ◌∙◌, ◌⊎◌, inl, inr, true, false, List, [], ◌∷◌, ◌++◌,
  none, some, arith, length, length-append, Bool-cases,
}
use disc_echo_dd.State.Events.{Event, job_progress}
use disc_echo_dd.Jobs.Sink.{
  Sink, PendingProgress, progress_interval, is_throttled, on_progress, flush,
}

-- A run of OnProgress calls, each with the time at which it is made.
unfoldable pub run_progress : List (ℕ × PendingProgress) → Sink → Sink
run_progress [] s = s
run_progress ((now, p) ∷ calls) s = run_progress calls (on_progress now p s)

-- The times do not decrease, from `t` on and up to `last`.
abbrev pub Ordered : ℕ → ℕ → List (ℕ × PendingProgress) → Type 0
Ordered t last [] = t ≤ last
Ordered t last ((now, p) ∷ calls) = (t ≤ now) × Ordered now last calls

le_last : (t last : ℕ) (calls : List (ℕ × PendingProgress)) → Ordered t last calls → t ≤ last
le_last t last [] h = h
le_last t last ((now, p) ∷ calls) (h, hs) = omega (arith, le_last now last calls hs)

throttled_step :
    (now : ℕ) (p : PendingProgress) (s : Sink)
    → is_throttled s.last_progress_at now ≡ true
    → ((on_progress now p s).published ≡ s.published)
      × ((on_progress now p s).last_progress_at ≡ s.last_progress_at)
unfolding on_progress
throttled_step now p s h = (rw h, rw h)

emitting_step :
    (now : ℕ) (p : PendingProgress) (s : Sink)
    → is_throttled s.last_progress_at now ≡ false
    → (length (on_progress now p s).published ≡ length s.published + 1)
      × ((on_progress now p s).last_progress_at ≡ some now)
unfolding on_progress
emitting_step now p s h = (rw h (length-append s.published _), rw h)

-- From an emission at `t` on, each further one takes a second of the time that is left.
rate_from :
    (calls : List (ℕ × PendingProgress)) (s : Sink) (t last l : ℕ)
    → s.last_progress_at ≡ some l
    → l ≤ t
    → Ordered t last calls
    → length (run_progress calls s).published * progress_interval
      ≤ length s.published * progress_interval + (last - l)
unfolding run_progress
rate_from [] s t last l e le h = omega arith
rate_from ((now, p) ∷ calls) s t last l e le (h, hs) =
    elim (Bool-cases (is_throttled s.last_progress_at now)) [
      | inl b ↦
          let (same, kept) = throttled_step now p s b in
          let rest = rate_from calls (on_progress now p s) now last l (kept ∙ e) (omega arith) hs in
          omega (arith, rest, ap (λ (es : List Event). length es) same)
      | inr b ↦
          let (more, stamped) = emitting_step now p s b in
          let rest = rate_from calls (on_progress now p s) now last now stamped (omega arith) hs in
          let spaced : l + progress_interval ≤ now =
            waited l now (subst (λ o. is_throttled o now ≡ false) e b) in
          omega (arith, le_last now last calls hs, more, rest, spaced)
    ]
  where
    waited : (l now : ℕ) → is_throttled (some l) now ≡ false → l + progress_interval ≤ now
    waited l now h = ground arith

-- However often a tool reports from the start of a step on, the progress events that are published
-- are at most one more than the whole seconds between the first and the last report.
pub progress_rate :
    (calls : List (ℕ × PendingProgress)) (s : Sink) (first last : ℕ)
    → s.last_progress_at ≡ none
    → Ordered first last calls
    → length (run_progress calls s).published * progress_interval
      ≤ (length s.published + 1) * progress_interval + (last - first)
unfolding run_progress
progress_rate [] s first last e h = omega arith
progress_rate ((now, p) ∷ calls) s first last e (h, hs) =
    let open_window : is_throttled s.last_progress_at now ≡ false = rw e in
    let (more, stamped) = emitting_step now p s open_window in
    let rest = rate_from calls (on_progress now p s) now last now stamped (omega arith) hs in
    omega (arith, more, rest, le_last now last calls hs)

-- What the sink still owes the clients: the last report, held back or published as the last event.
abbrev IsLastReport : PendingProgress → Sink → Type 0
IsLastReport p s =
    (s.pending_progress ≡ some p)
    ⊎ ((s.pending_progress ≡ none)
        × ((before : List Event) × (s.published
              ≡ before ++ job_progress s.job_id p.step p.pct p.spd p.eta ∷ [])))

abbrev final_report : PendingProgress → List (ℕ × PendingProgress) → PendingProgress
final_report p [] = p
final_report p ((now, q) ∷ calls) = final_report q calls

report_step : (now : ℕ) (p : PendingProgress) (s : Sink) → IsLastReport p (on_progress now p s)
unfolding on_progress
report_step now p s = elim (Bool-cases (is_throttled s.last_progress_at now)) [
  | inl b ↦ inl (rw b)
  | inr b ↦ inr (rw b, (s.published, rw b))
]

reports :
    (calls : List (ℕ × PendingProgress)) (p : PendingProgress) (s : Sink)
    → IsLastReport p s
    → IsLastReport (final_report p calls) (run_progress calls s)
unfolding run_progress
reports [] p s h = h
reports ((now, q) ∷ calls) p s h = reports calls q (on_progress now q s) (report_step now q s)

flush_last :
    (at : ℕ) (p : PendingProgress) (s : Sink)
    → IsLastReport p s
    → let s' = flush at s in
      (s'.pending_progress ≡ none)
      × ((before : List Event) × (s'.published
            ≡ before ++ job_progress s'.job_id p.step p.pct p.spd p.eta ∷ []))
unfolding flush
flush_last at p s (inl e) = rw e (refl, (s.published, refl))
flush_last at p s (inr (e, (before, h))) = rw e (refl, (before, h))

-- The throttle loses no final value: after any reports, a flush leaves the last of them published as
-- the last event, and nothing held back.
pub flush_publishes_last :
    (calls : List (ℕ × PendingProgress)) (now at : ℕ) (p : PendingProgress) (s : Sink)
    → let s' = flush at (run_progress ((now, p) ∷ calls) s) in
      let q = final_report p calls in
      (s'.pending_progress ≡ none)
      × ((before : List Event) × (s'.published
            ≡ before ++ job_progress s'.job_id q.step q.pct q.spd q.eta ∷ []))
unfolding run_progress
flush_publishes_last calls now at p s =
    flush_last at (final_report p calls) (run_progress calls (on_progress now p s))
      (reports calls p (on_progress now p s) (report_step now p s))
