-- ===== src/State/Lifecycle/Meaning.antt =====
-- What daemon/state/disc_lifecycle.go derives, against a relation that says it without loops.
use disc_echo_dd.Common.{
  ◌<◌, ◌≡◌, refl, ap, inl, inr, ◌↔◌, Bool, true, false, List, [], ◌∷◌, Memᴰ, Option, none, some,
  arith, All-mem, Bool-cases,
}
use disc_echo_dd.State.Types.{
  DiscType, has_transcode_half, DiscLifecycleState, JobState, JobKind, Job, is_active,
}
use disc_echo_dd.State.Lifecycle.{
  is_rip, is_child_of, latest, after_rip, of_rip, of_transcode, derive_lifecycle_state,
}
use disc_echo_dd.State.Lifecycle.Latest.{
  IsLatest, NonePasses, latest-cases, IsLatest-unique, latest-older, latest_skip,
}

-- The lifecycle state that a job which ended without success gives its disc.
abbrev pub stopped : JobState → Option DiscLifecycleState
stopped JobState.failed = some DiscLifecycleState.failed
stopped JobState.cancelled = some DiscLifecycleState.cancelled
stopped JobState.interrupted = some DiscLifecycleState.interrupted
stopped _ = none

-- The lifecycle of a disc of type `t` with the jobs `js`, in the words of the documentation: the
-- newest rip decides, and behind a successful rip its newest transcode job.
pub data Lifecycle (t : DiscType) (js : List Job) : DiscLifecycleState → Type 0 where
  undecided : NonePasses is_rip js → Lifecycle t js DiscLifecycleState.awaiting_decision
  rip_active :
      {r : Job}
      → IsLatest is_rip js r
      → is_active r.state ≡ true
      → Lifecycle t js DiscLifecycleState.ripping
  rip_stopped :
      {r : Job} {s : DiscLifecycleState}
      → IsLatest is_rip js r
      → stopped r.state ≡ some s
      → Lifecycle t js s
  rip_ends :
      {r : Job}
      → IsLatest is_rip js r
      → r.state ≡ JobState.done
      → has_transcode_half t ≡ false
      → Lifecycle t js DiscLifecycleState.done
  encode_missing :
      {r : Job}
      → IsLatest is_rip js r
      → r.state ≡ JobState.done
      → has_transcode_half t ≡ true
      → NonePasses (is_child_of r) js
      → Lifecycle t js DiscLifecycleState.awaiting_encode
  encode_active :
      {r c : Job}
      → IsLatest is_rip js r
      → r.state ≡ JobState.done
      → has_transcode_half t ≡ true
      → IsLatest (is_child_of r) js c
      → is_active c.state ≡ true
      → Lifecycle t js DiscLifecycleState.encoding
  encode_stopped :
      {r c : Job} {s : DiscLifecycleState}
      → IsLatest is_rip js r
      → r.state ≡ JobState.done
      → has_transcode_half t ≡ true
      → IsLatest (is_child_of r) js c
      → stopped c.state ≡ some s
      → Lifecycle t js s
  encode_done :
      {r c : Job}
      → IsLatest is_rip js r
      → r.state ≡ JobState.done
      → has_transcode_half t ≡ true
      → IsLatest (is_child_of r) js c
      → c.state ≡ JobState.done
      → Lifecycle t js DiscLifecycleState.done

-- The derivation by the result of the first loop, without the early return on no jobs.
by_rip : DiscType → List Job → Option Job → DiscLifecycleState
by_rip t js none = DiscLifecycleState.awaiting_decision
by_rip t js (some r) = of_rip r.state t js r

derive-by_rip :
    (t : DiscType) (js : List Job) → derive_lifecycle_state t js ≡ by_rip t js (latest is_rip js)
unfolding derive_lifecycle_state by_rip latest
derive-by_rip t [] = refl
derive-by_rip t (j ∷ js) = go (latest is_rip (j ∷ js))
  where
    go :
        (o : Option Job)
        → elim o [
          | none ↦ DiscLifecycleState.awaiting_decision
          | some rip ↦ of_rip rip.state t (j ∷ js) rip
        ]
          ≡ by_rip t (j ∷ js) o
    go none = refl
    go (some r) = refl

-- The state that the second switch gives, in terms of the relation.
transcode_meaning :
    (t : DiscType) (js : List Job) (r c : Job) (s : JobState)
    → IsLatest is_rip js r
    → r.state ≡ JobState.done
    → has_transcode_half t ≡ true
    → IsLatest (is_child_of r) js c
    → c.state ≡ s
    → Lifecycle t js (of_transcode s)
unfolding of_transcode
transcode_meaning t js r c JobState.failed l d h lc e = encode_stopped l d h lc (rw e)
transcode_meaning t js r c JobState.cancelled l d h lc e = encode_stopped l d h lc (rw e)
transcode_meaning t js r c JobState.interrupted l d h lc e = encode_stopped l d h lc (rw e)
transcode_meaning t js r c JobState.done l d h lc e = encode_done l d h lc e
transcode_meaning t js r c _ l d h lc e = encode_active l d h lc (rw e)

after_meaning :
    (t : DiscType) (js : List Job) (r : Job)
    → IsLatest is_rip js r
    → r.state ≡ JobState.done
    → Lifecycle t js (after_rip t js r)
unfolding after_rip
after_meaning t js r l d = elim (Bool-cases (has_transcode_half t)) [
  | inr f ↦ rw f (rip_ends l d f)
  | inl h ↦ elim (latest-cases (is_child_of r) js) [
    | inl (e, n) ↦ rw (h, e) (encode_missing l d h n)
    | inr (c, e, lc) ↦ rw (h, e) (transcode_meaning t js r c c.state l d h lc refl)
  ]
]

rip_meaning :
    (t : DiscType) (js : List Job) (r : Job) (s : JobState)
    → IsLatest is_rip js r
    → r.state ≡ s
    → Lifecycle t js (of_rip s t js r)
unfolding of_rip
rip_meaning t js r JobState.done l e = after_meaning t js r l e
rip_meaning t js r JobState.failed l e = rip_stopped l (rw e)
rip_meaning t js r JobState.cancelled l e = rip_stopped l (rw e)
rip_meaning t js r JobState.interrupted l e = rip_stopped l (rw e)
rip_meaning t js r _ l e = rip_active l (rw e)

-- The derived state is the one that the newest rip, and behind a successful one its newest
-- transcode job, call for: every branch of the derivation has its rule.
pub derive-Lifecycle : (t : DiscType) (js : List Job) → Lifecycle t js (derive_lifecycle_state t js)
unfolding by_rip
derive-Lifecycle t js = elim (latest-cases is_rip js) [
  | inl (e, n) ↦ rw (derive-by_rip, e) (undecided n)
  | inr (r, e, l) ↦ rw (derive-by_rip, e) (rip_meaning t js r r.state l refl)
]

-- The loop depends on the members of the list only.
latest_members :
    (p : Job → Bool) (js ks : List Job)
    → ((x : Job) → Memᴰ x js → Memᴰ x ks)
    → ((x : Job) → Memᴰ x ks → Memᴰ x js)
    → ((x y : Job) → Memᴰ x js → Memᴰ y js → x.created_at ≡ y.created_at → x ≡ y)
    → latest p js ≡ latest p ks
latest_members p js ks to back distinct = elim (latest-cases p js) [
  | inl (e, n) ↦ elim (latest-cases p ks) [
    | inl (f, m) ↦ cc
    | inr (b, f, l) ↦ absurd (clash (All-mem _ js b n (back b l.listed)) l.passes)
  ]
  | inr (a, e, l) ↦ elim (latest-cases p ks) [
    | inl (f, m) ↦ absurd (clash (All-mem _ ks a m (to a l.listed)) l.passes)
    | inr (b, f, k) ↦ rw (e, f) (ap some (IsLatest-unique p js ks a b to back distinct l k))
  ]
]
  where
    clash : {b : Bool} → b ≡ false → b ≡ true → ⊥
    clash f t = cc

of_rip_members :
    (s : JobState) (t : DiscType) (js ks : List Job) (r : Job)
    → latest (is_child_of r) js ≡ latest (is_child_of r) ks
    → of_rip s t js r ≡ of_rip s t ks r
unfolding of_rip after_rip
of_rip_members JobState.done t js ks r e = rw e
of_rip_members _ t js ks r e = refl

-- Neither the order of the jobs nor repetitions matter, if no two jobs were created at one time.
pub derive_order_independent :
    (t : DiscType) (js ks : List Job)
    → ((x : Job) → Memᴰ x js → Memᴰ x ks)
    → ((x : Job) → Memᴰ x ks → Memᴰ x js)
    → ((x y : Job) → Memᴰ x js → Memᴰ y js → x.created_at ≡ y.created_at → x ≡ y)
    → derive_lifecycle_state t js ≡ derive_lifecycle_state t ks
unfolding by_rip
derive_order_independent t js ks to back distinct =
    rw (derive-by_rip, derive-by_rip t ks, ← latest_members is_rip js ks to back distinct)
      (same (latest is_rip js))
  where
    same : (o : Option Job) → by_rip t js o ≡ by_rip t ks o
    same none = refl
    same (some r) =
        of_rip_members r.state t js ks r (latest_members (is_child_of r) js ks to back distinct)

stopped-ne-awaiting : (s : JobState) → stopped s ≡ some DiscLifecycleState.awaiting_decision → ⊥
stopped-ne-awaiting JobState.failed e = cc
stopped-ne-awaiting JobState.cancelled e = cc
stopped-ne-awaiting JobState.interrupted e = cc
stopped-ne-awaiting _ e = cc

Lifecycle-awaiting :
    {t : DiscType} {js : List Job} {s : DiscLifecycleState}
    → Lifecycle t js s
    → s ≡ DiscLifecycleState.awaiting_decision
    → NonePasses is_rip js
Lifecycle-awaiting (undecided n) e = n
Lifecycle-awaiting (rip_active l a) e = absurd cc
Lifecycle-awaiting (rip_stopped {r} l a) e = absurd (stopped-ne-awaiting r.state (rw e at a))
Lifecycle-awaiting (rip_ends l d h) e = absurd cc
Lifecycle-awaiting (encode_missing l d h n) e = absurd cc
Lifecycle-awaiting (encode_active l d h lc a) e = absurd cc
Lifecycle-awaiting (encode_stopped {r} {c} l d h lc a) e =
    absurd (stopped-ne-awaiting c.state (rw e at a))
Lifecycle-awaiting (encode_done l d h lc a) e = absurd cc

-- A disc awaits a decision exactly while no rip was ever submitted for it.
pub awaiting_iff :
    (t : DiscType) (js : List Job)
    → (derive_lifecycle_state t js ≡ DiscLifecycleState.awaiting_decision) ↔ NonePasses is_rip js
unfolding by_rip
awaiting_iff t js = (Lifecycle-awaiting (derive-Lifecycle t js), none_listed)
  where
    none_listed :
        NonePasses is_rip js → derive_lifecycle_state t js ≡ DiscLifecycleState.awaiting_decision
    none_listed n = elim (latest-cases is_rip js) [
      | inl (e, _) ↦ rw (derive-by_rip, e)
      | inr (r, e, l) ↦ absurd (let f = All-mem _ js r n l.listed in let p = l.passes in cc (f, p))
    ]

-- A further rip that is older than a listed one changes nothing: the newest attempt wins.
pub older_rip_ignored :
    (t : DiscType) (js : List Job) (old r : Job)
    → is_rip old ≡ true
    → Memᴰ r js
    → is_rip r ≡ true
    → old.created_at < r.created_at
    → derive_lifecycle_state t (old ∷ js) ≡ derive_lifecycle_state t js
unfolding by_rip
older_rip_ignored t js old r po m pr older =
    rw (derive-by_rip, derive-by_rip t js, latest-older is_rip js old r m pr older)
      (same (latest is_rip js))
  where
    no_child : (k : Job) → is_child_of k old ≡ false
    no_child k = ground arith

    same : (o : Option Job) → by_rip t (old ∷ js) o ≡ by_rip t js o
    same none = refl
    same (some k) =
        of_rip_members k.state t (old ∷ js) js k (latest_skip (is_child_of k) js old (no_child k))

-- Scan jobs do not count: a disc has the state that its other jobs give it.
pub scan_ignored :
    (t : DiscType) (js : List Job) (s : Job)
    → s.kind ≡ JobKind.scan
    → derive_lifecycle_state t (s ∷ js) ≡ derive_lifecycle_state t js
unfolding by_rip
scan_ignored t js s e =
    rw (derive-by_rip, derive-by_rip t js, latest_skip is_rip js s (ground arith))
      (same (latest is_rip js))
  where
    same : (o : Option Job) → by_rip t (s ∷ js) o ≡ by_rip t js o
    same none = refl
    same (some k) =
        of_rip_members k.state t (s ∷ js) js k (latest_skip (is_child_of k) js s (ground arith))
