-- ===== src/Spool/Gc.antt =====
-- The startup sweep of daemon/spool/spool.go against the references of daemon/state/store.go.
use disc_echo_dd.Common.{
  ℕ, ◌+◌, ◌≡◌, refl, ap, subst, ◌∙◌, ◌⊎◌, Bool, true, false, not, ◌&&◌, ◌||◌, List, [], ◌∷◌, map,
  Memᴰ, Option, none, Text, arith, text_eq, text_eq_refl, is_empty, Result, ok, err, GoError,
  Bool-cases, inl, inr, keep_if, any_of-mem, mem-map, mem-keep_if, length, IsEntry, EndsIn,
  join_path, join_path-EndsIn, join_path-nonempty,
}
use disc_echo_dd.Spool.{Entry, Spool, path, is_kept, sweep, gc}
use disc_echo_dd.State.Types.{Job, JobKind, JobState, is_active}
use disc_echo_dd.State.Rows.{Db}
use disc_echo_dd.State.Store.Recovery.{
  active_spool_references, owns_spool, reads_spool, is_rip_row, is_transcode, is_retryable,
  nonempty_bases, basename_of,
}
use disc_echo_dd.State.Store.Recovery.Bases.{IsName, basename-join, basename-name}

-- The entries that survive a sweep: those that are kept, or that cannot be removed.
abbrev pub survives : (Text → Bool) → (Text → Bool) → Entry → Bool
survives keep fails e = keep e.0 || fails e.0

module _ (keep fails : Text → Bool) where
  sweep_split :
      (es : List Entry)
      → ((sweep keep fails es).0 ≡ keep_if (survives keep fails) es)
        × (length (sweep keep fails es).0 + (sweep keep fails es).1 ≡ length es)
  unfolding sweep
  sweep_split [] = (refl, refl)
  sweep_split (x ∷ es) =
      let (rest, counted) = sweep_split es in
      elim (Bool-cases (keep x.0)) [
        | inl k ↦ (rw (k, rest), rw k (omega arith))
        | inr k ↦ elim (Bool-cases (fails x.0)) [
          | inl f ↦ (rw (k, f, rest), rw (k, f) (omega arith))
          | inr f ↦ (rw (k, f) rest, rw (k, f) (omega arith))
        ]
      ]

module _ (fails : Text → Bool) (rips bases : List Text) (s : Spool) where
  -- With references and a listing at hand the sweep succeeds; it leaves exactly the entries that are
  -- referred to or that cannot be removed, in their order, and returns how many it removed.
  pub gc_exact :
      let (r, s') = gc fails none (ok (rips, bases)) s in
      (s'.entries ≡ keep_if (survives (is_kept rips bases) fails) s.entries)
      × ((n : ℕ) × (r ≡ ok n) × (length s'.entries + n ≡ length s.entries))
  unfolding gc
  gc_exact =
      let (exact, counted) = sweep_split (is_kept rips bases) fails s.entries in
      (exact, ((sweep (is_kept rips bases) fails s.entries).1, refl, counted))

  gc-mem :
      (e : Entry)
      → Memᴰ e s.entries
      → is_kept rips bases e.0 ≡ true
      → Memᴰ e (gc fails none (ok (rips, bases)) s).1.entries
  gc-mem e m k =
      rw gc_exact.0 (mem-keep_if (survives (is_kept rips bases) fails) s.entries e m (rw k))

-- A failed lookup of the references, or a root that cannot be read, removes nothing.
pub gc_error_keeps :
    (fails : Text → Bool) (listing : Option GoError) (refs : Result (List Text × List Text))
    (s : Spool) {e : GoError}
    → (gc fails listing refs s).0 ≡ err e
    → (gc fails listing refs s).1 ≡ s
unfolding gc
gc_error_keeps fails listing refs s h = ground arith

-- A name of a job: an entry's name without a backslash.
pub record IsJobName (rip : Text) : Type 0 where
  pub entry : IsEntry rip
  pub plain : IsName rip

basename-EndsIn : (w t : Text) → IsName w → EndsIn w t → basename_of t ≡ w
basename-EndsIn w _ h EndsIn.alone = basename-name w h
basename-EndsIn w _ h (EndsIn.behind dir) = basename-join dir w h

-- The directory of a job is found again by the last part of its path.
path-basename : (s : Spool) (rip : Text) → IsJobName rip → basename_of (path s rip) ≡ rip
unfolding path
path-basename s rip n =
    basename-EndsIn rip (join_path s.root_dir rip) n.plain (join_path-EndsIn s.root_dir rip n.entry)

-- What a job that the second query lists reads is kept.
gc_keeps_read :
    (fails : Text → Bool) (db : Db) (s : Spool) (j : Job) (rip : Text) (size : ℕ)
    → Memᴰ j db.jobs
    → reads_spool j ≡ true
    → j.spool_path ≡ path s rip
    → IsJobName rip
    → Memᴰ (rip, size) s.entries
    → Memᴰ (rip, size) (gc fails none (ok (active_spool_references db)) s).1.entries
unfolding active_spool_references nonempty_bases
gc_keeps_read fails db s j rip size mj reads at name me =
    gc-mem fails refs.0 refs.1 s (rip, size) me
      (or_true _ (any_of-mem (λ b. text_eq b rip) refs.1 rip referred (text_eq_refl rip)))
  where
    refs : List Text × List Text
    refs = active_spool_references db

    base : basename_of j.spool_path ≡ rip
    base = rw at (path-basename s rip name)

    referred : Memᴰ rip refs.1
    referred =
        mem-keep_if (λ b. not (is_empty b)) _ rip
          (subst
            (λ b.
              Memᴰ b
                (map basename_of (map (λ (k : Job). k.spool_path) (keep_if reads_spool db.jobs))))
            base
            (mem-map basename_of _ _ (
              mem-map (λ (k : Job). k.spool_path) _ _
                (mem-keep_if reads_spool db.jobs j mj reads))))
          (rw name.entry.full)

    or_true : (b : Bool) {c : Bool} → c ≡ true → (b || c) ≡ true
    or_true b e = ground arith

listed :
    (k : JobKind) (p : Text) (st : JobState)
    → k ≡ JobKind.transcode
    → is_empty p ≡ false
    → (is_active st ≡ true) ⊎ (is_retryable st ≡ true)
    → (is_transcode k && not (is_empty p) && (is_active st || is_retryable st)) ≡ true
listed k p st e h (inl a) = rw (e, h, a) refl
listed k p st e h (inr r) = rw (e, h, r) (or_true (is_active st))
  where
    or_true : (b : Bool) → (b || true) ≡ true
    or_true true = refl
    or_true false = refl

pub path-nonempty : (s : Spool) (rip : Text) → is_empty rip ≡ false → is_empty (path s rip) ≡ false
unfolding path
path-nonempty s rip f = join_path-nonempty s.root_dir rip f

-- The sweep at startup keeps the directory that a transcode job, waiting, running or open to a
-- retry, will read: the one that the spool created for its rip, whose identifier names an entry.
pub gc_keeps_transcode_input :
    (fails : Text → Bool) (db : Db) (s : Spool) (j : Job) (rip : Text) (size : ℕ)
    → Memᴰ j db.jobs
    → j.kind ≡ JobKind.transcode
    → (is_active j.state ≡ true) ⊎ (is_retryable j.state ≡ true)
    → j.spool_path ≡ path s rip
    → IsJobName rip
    → Memᴰ (rip, size) s.entries
    → Memᴰ (rip, size) (gc fails none (ok (active_spool_references db)) s).1.entries
gc_keeps_transcode_input fails db s j rip size mj kind open_ at name me =
    gc_keeps_read fails db s j rip size mj
      (listed j.kind j.spool_path j.state kind
        (ap is_empty at ∙ path-nonempty s rip name.entry.full) open_)
      at name me

owned :
    (k : JobKind) (st : JobState)
    → k ≡ JobKind.rip
    → is_active st ≡ true
    → (is_rip_row k && is_active st) ≡ true
owned k st e h = rw (e, h) refl

-- The sweep at startup keeps the directory of a rip that is still active.
pub gc_keeps_active_rip :
    (fails : Text → Bool) (db : Db) (s : Spool) (j : Job) (size : ℕ)
    → Memᴰ j db.jobs
    → j.kind ≡ JobKind.rip
    → is_active j.state ≡ true
    → Memᴰ (j.id, size) s.entries
    → Memᴰ (j.id, size) (gc fails none (ok (active_spool_references db)) s).1.entries
unfolding active_spool_references
gc_keeps_active_rip fails db s j size mj kind active me =
    let owns = owned j.kind j.state kind active in
    gc-mem fails (active_spool_references db).0 (active_spool_references db).1 s (j.id, size) me
      (rw (
        any_of-mem (λ r. text_eq r j.id) (active_spool_references db).0 j.id
          (mem-map (λ (k : Job). k.id) _ j (mem-keep_if owns_spool db.jobs j mj owns))
          (text_eq_refl j.id)))
