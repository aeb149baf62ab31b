-- ===== src/Tests/Spool.antt =====
-- The sweep of the staging directory on a small database.
use disc_echo_dd.Common.{
  inl, text_eq, clean, ℕ, ◌≡◌, ◌+◌, refl, false, [], ◌∷◌, none, codes, keep_if, length, ok, Memᴰ,
  arith,
}
use disc_echo_dd.State.Store.Recovery.{active_spool_references}
use disc_echo_dd.Spool.{gc, is_kept, path}
use disc_echo_dd.Spool.Gc.{survives, gc_exact, gc_keeps_transcode_input}
use disc_echo_dd.Tests.Samples.{transcode_job, db, spool}

gc_exact_example :
    let (r, s') = gc (λ n. false) none (ok (codes "r" ∷ [], [])) spool in
    (s'.entries ≡ keep_if (survives (is_kept (codes "r" ∷ []) []) (λ n. false)) spool.entries)
    × ((n : ℕ) × (r ≡ ok n) × (length s'.entries + n ≡ length spool.entries))
gc_exact_example = gc_exact (λ n. false) (codes "r" ∷ []) [] spool

gc_keeps_transcode_input_example :
    Memᴰ (codes "r", 7) (gc (λ n. false) none (ok (active_spool_references db)) spool).1.entries
unfolding path text_eq
gc_keeps_transcode_input_example =
    gc_keeps_transcode_input (λ n. false) db spool transcode_job (codes "r") 7
      (Memᴰ.tail (Memᴰ.head refl)) refl (inl refl) refl
      (record {
        entry = record { full = refl; not_here = refl; not_up = refl; one = (refl, tt) };
        plain = ((ground arith, ground arith), tt);
      })
      (Memᴰ.head refl)

clean_climbs : clean (codes "/data//./spool/../spool/a") ≡ codes "/data/spool/a"
unfolding clean
clean_climbs = refl
