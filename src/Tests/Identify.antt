-- ===== src/Tests/Identify.antt =====
-- Runs of the models of daemon/identify/classify.go.
use disc_echo_dd.Common.{
  ℕ, zero, suc, ◌≡◌, refl, true, false, List, [], ◌∷◌, none, some, Text, codes, any_of, ok, err,
  message, ◌++◌, arith, ◌<◌, is_space,
}
use disc_echo_dd.State.Types.{DiscType}
use disc_echo_dd.Identify.Watcher.{is_usable, new_cd_info_watcher, classify_from_cd_info}
use disc_echo_dd.Identify.Watcher.Fires.{watcher_fires, write_all, joined, complete_lines}
use disc_echo_dd.Identify.Retry.{Attempt}
use disc_echo_dd.Identify.CdGame.{probe_cd_game_reader}
use disc_echo_dd.Identify.Classify.{
  Probes, has_path, MultiProbeClassifier, refine_disc_type, classify, settled,
}
use disc_echo_dd.Identify.Classify.Movie.{dvd_exactly, on_track}
use disc_echo_dd.Identify.Classify.Spun.{classify_outlasts, SpinsUp, Early, NoOutput, NoFiles}

abbrev prefix : Text
prefix = codes "Disc mode is listed as:"

-- A line that arrives in two writes.
abbrev halves : List Text
halves = codes "Disc mode is lis" ∷ (codes "ted as: CD-ROM" ++ 10 ∷ []) ∷ []

fires_on_halves : (write_all (new_cd_info_watcher prefix) halves).found ≡ true
unfolding write_all new_cd_info_watcher is_space
fires_on_halves = refl

waits_for_line_end :
    (write_all (new_cd_info_watcher prefix) (codes "Disc mode is listed as: CD-ROM" ∷ [])).found
    ≡ false
unfolding write_all new_cd_info_watcher is_space
waits_for_line_end = refl

watcher_fires_example :
    ((write_all (new_cd_info_watcher prefix) halves).buf ≡ joined halves)
    × ((write_all (new_cd_info_watcher prefix) halves).found
        ≡ any_of (is_usable prefix) (complete_lines (joined halves)))
watcher_fires_example = watcher_fires prefix halves

cd_data_is_no_audio :
    classify_from_cd_info (codes "Disc mode is listed as: CD-DATA (Mode 1)") ≡ ok DiscType.data_disc
unfolding classify_from_cd_info is_space
cd_data_is_no_audio = refl

cd_da_is_audio :
    classify_from_cd_info (codes "Disc mode is listed as: CD-DA") ≡ ok DiscType.audio_cd
unfolding classify_from_cd_info is_space
cd_da_is_audio = refl

sega_disc : probe_cd_game_reader (codes "SEGADISCSYSTEM") ≡ some DiscType.segacd
unfolding probe_cd_game_reader
sega_disc = refl

-- A DVD on a drive without the other probers.
abbrev movie : Probes
movie = record {
  fs = some (ok (codes "/AUDIO_TS" ∷ codes "/VIDEO_TS" ∷ []));
  blu_ray = false;
  bd = none;
  sys_cnf = none;
  saturn = none;
  xbox = some (err (message (codes "read")));
  dc = none;
  cd_game = none;
  xgd_decoy = some (ok true);
}

dvd_exactly_example :
    refine_disc_type DiscType.data_disc (on_track (codes "SEGADISCSYSTEM") movie) ≡ DiscType.dvd
unfolding has_path
dvd_exactly_example = (dvd_exactly (codes "SEGADISCSYSTEM") movie).1 (refl, refl, refl, refl)

abbrev mode_line : Text
mode_line = codes "Disc mode is listed as: CD-ROM"

-- The first run of cd-info fails, and so does the first listing.
abbrev runner : ℕ → Attempt Text
runner zero = record {
  result = err (message (codes "exit status 1"));
  over = none;
  interrupted = none;
}
runner (suc n) = record { result = ok mode_line; over = none; interrupted = none }

abbrev lister : ℕ → Attempt (List Text)
lister zero = record { result = ok []; over = none; interrupted = none }
lister (suc n) = record { result = ok (codes "/VIDEO_TS" ∷ []); over = none; interrupted = none }

abbrev slow : MultiProbeClassifier
slow = record {
  probes = movie;
  fs = some lister;
  sys_cnf = none;
  runner = runner;
  backoff = 500 ∷ 1000 ∷ [];
}

first_run-Early : (i : ℕ) → i < 1 → Early NoOutput (runner i)
first_run-Early zero lt = record {
  answer = NoOutput.failed (message (codes "exit status 1"));
  alive = refl;
  waited = refl;
}
first_run-Early (suc i) lt = absurd omega arith

first_listing-Early : (i : ℕ) → i < 1 → Early NoFiles (lister i)
first_listing-Early zero lt = record { answer = NoFiles.empty; alive = refl; waited = refl }
first_listing-Early (suc i) lt = absurd omega arith

slow-SpinsUp : SpinsUp slow lister 1 1 mode_line DiscType.data_disc (codes "/VIDEO_TS") []
unfolding classify_from_cd_info is_space
slow-SpinsUp = record {
  lister = refl;
  runs_in_time = omega arith;
  runs_fail = first_run-Early;
  runs = refl;
  kind = refl;
  lists_in_time = omega arith;
  lists_nothing = first_listing-Early;
  lists = refl;
}

classify_outlasts_example :
    classify slow
    ≡ ok (
        refine_disc_type DiscType.data_disc
          (record (settled slow) { fs = some (ok (codes "/VIDEO_TS" ∷ [])) }))
classify_outlasts_example =
    classify_outlasts slow lister 1 1 mode_line DiscType.data_disc (codes "/VIDEO_TS") []
      slow-SpinsUp
