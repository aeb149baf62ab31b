-- ===== src/State/Store/Lookups.antt =====
-- daemon/state/store.go: the reads of discs and profiles, and the writes of a disc's metadata.
use disc_echo_dd.Common.{ℕ, Bool, List, Text, text_eq, is_empty, codes, if◌then◌else◌, Result}
use disc_echo_dd.State.Rows.{Candidate, Db, Disc, Profile}
use disc_echo_dd.State.Store.Table.{select, update_where, count_where, affected}
use disc_echo_dd.State.Store.Jobs.{row_result}

abbrev pub has_disc_id : Text → Disc → Bool
has_disc_id id d = text_eq d.id id

unfoldable pub get_disc : Db → Text → Result Disc
get_disc db id = row_result (select (has_disc_id id) db.discs)

unfoldable pub get_profile : Db → Text → Result Profile
get_profile db id = row_result (select (λ (p : Profile). text_eq p.id id) db.profiles)

abbrev pub update_discs : (Disc → Bool) → (Disc → Disc) → Db → Db
update_discs p f db = record db { discs = update_where p f db.discs }

unfoldable pub update_disc_metadata : Text → Text → ℕ → Text → Text → Db → Result (Unit {0}) × Db
update_disc_metadata id title year provider metadata_id db = (
  affected (count_where (has_disc_id id) db.discs),
  update_discs (has_disc_id id)
      (λ d. record d {
        title = title;
        year = year;
        metadata_provider = provider;
        metadata_id = metadata_id;
      })
      db,
)

unfoldable pub update_disc_metadata_blob : Text → Text → Db → Result (Unit {0}) × Db
update_disc_metadata_blob id blob db = (
  affected (count_where (has_disc_id id) db.discs),
  update_discs (has_disc_id id)
      (λ d. record d { metadata_json = if is_empty blob then codes "{}" else blob }) db,
)

unfoldable pub update_disc_candidates : Text → List Candidate → Db → Result (Unit {0}) × Db
update_disc_candidates id cands db = (
  affected (count_where (has_disc_id id) db.discs),
  update_discs (has_disc_id id) (λ d. record d { candidates = cands }) db,
)
