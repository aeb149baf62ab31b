-- ===== src/Pipelines/Titles.antt =====
-- daemon/pipelines/movie_title_select.go, extras.go: which titles of a disc are ripped, and where its
-- bonus material goes. `ratio_of d pct` stands for the code's `int(float64(d) * (float64(pct) / 100))`.
pub mod Best
pub mod Chosen
use disc_echo_dd.Common.{
  ℕ, Bool, true, false, not, ◌&&◌, List, [], ◌∷◌, ◌++◌, Option, none, some, Text, codes,
  if◌then◌else◌, ltb, leb, ◌==◌, keep_if, format, join_with, map, Result, ok, err, message,
}
use disc_echo_dd.State.Rows.{Profile}
use disc_echo_dd.Pipelines.Options.{int_option, include_extras, min_extra_seconds, extras_max_ratio}

pub record MakeMkvTitle : Type 0 where
  pub id : ℕ
  pub duration_sec : ℕ
  pub size_bytes : ℕ

-- A title that is longer than the best one so far.
abbrev pub is_better : Option MakeMkvTitle → MakeMkvTitle → Bool
is_better none t = true
is_better (some best) t = ltb best.duration_sec t.duration_sec

unfoldable pub longest_from : ℕ → List MakeMkvTitle → Option MakeMkvTitle → Option MakeMkvTitle
longest_from min [] best = best
longest_from min (t ∷ ts) best =
    longest_from min ts
      (if ltb t.duration_sec min then best else if is_better best t then some t else best)

abbrev pub long_enough : ℕ → Option MakeMkvTitle → Result MakeMkvTitle
long_enough min none = err (message (codes "no title with duration >= " ++ format min ++ codes "s"))
long_enough min (some t) = ok t

abbrev pub min_title_seconds : Option Profile → ℕ
min_title_seconds prof = int_option prof (codes "min_title_seconds") 0

unfoldable pub pick_longest_title : List MakeMkvTitle → Option Profile → Result MakeMkvTitle
unfolding longest_from
pick_longest_title titles prof =
    long_enough (min_title_seconds prof) (longest_from (min_title_seconds prof) titles none)

abbrev pub is_extra_of : ℕ → ℕ → MakeMkvTitle → MakeMkvTitle → Bool
is_extra_of min max main t =
    not (t.id == main.id) && not (ltb t.duration_sec min) && not (ltb max t.duration_sec)

-- `byID[id]`: the last title with the identifier.
unfoldable pub title_by_id : ℕ → List MakeMkvTitle → Option MakeMkvTitle
title_by_id id [] = none
title_by_id id (t ∷ ts) = elim (title_by_id id ts) [
  | some u ↦ some u
  | none ↦ if t.id == id then some t else none
]

unfoldable pub picked_titles : List ℕ → List MakeMkvTitle → List MakeMkvTitle
unfolding title_by_id
picked_titles [] titles = []
picked_titles (id ∷ ids) titles = elim (title_by_id id titles) [
  | none ↦ picked_titles ids titles
  | some t ↦ t ∷ picked_titles ids titles
]

-- `%v` of a slice of integers.
unfoldable pub ids_text : List ℕ → Text
unfolding format join_with
ids_text ids = codes "[" ++ join_with (codes " ") (map format ids) ++ codes "]"

abbrev pub some_picked : List ℕ → List MakeMkvTitle → Result (List MakeMkvTitle × ℕ)
some_picked ids [] = err (
    message (codes "none of selected title IDs " ++ ids_text ids ++ codes " found in MakeMKV scan"))
some_picked ids (t ∷ ts) = ok (t ∷ ts, 0)

module _ (ratio_of : ℕ → ℕ → ℕ) where
  unfoldable pub select_extras : List MakeMkvTitle → MakeMkvTitle → ℕ → ℕ → List MakeMkvTitle
  select_extras titles main min pct =
      keep_if (is_extra_of min (ratio_of main.duration_sec pct) main) titles

  -- The main feature with its extras, and the main feature's identifier if there are any.
  abbrev pub add_extras : MakeMkvTitle → List MakeMkvTitle → List MakeMkvTitle × ℕ
  add_extras main [] = (main ∷ [], 0)
  add_extras main (e ∷ es) = (main ∷ e ∷ es, main.id)

  abbrev pub extras_of : Option Profile → List MakeMkvTitle → MakeMkvTitle → List MakeMkvTitle
  extras_of prof titles main =
      if include_extras prof
      then select_extras titles main (min_extra_seconds prof) (extras_max_ratio prof)
      else []

  unfoldable pub with_extras :
      Option Profile → List MakeMkvTitle → MakeMkvTitle → List MakeMkvTitle × ℕ
  unfolding include_extras min_extra_seconds extras_max_ratio select_extras
  with_extras prof titles main = add_extras main (extras_of prof titles main)

  abbrev pub around_main :
      Option Profile → List MakeMkvTitle → Result MakeMkvTitle → Result (List MakeMkvTitle × ℕ)
  around_main prof titles (err e) = err e
  around_main prof titles (ok main) = ok (with_extras prof titles main)

  -- `ids` are the titles that the user picked, as SelectedTitleIDsFromDisc reads them.
  unfoldable pub select_movie_titles :
      List ℕ → List MakeMkvTitle → Option Profile → Result (List MakeMkvTitle × ℕ)
  unfolding picked_titles pick_longest_title with_extras ids_text
  select_movie_titles [] titles prof = around_main prof titles (pick_longest_title titles prof)
  select_movie_titles (id ∷ ids) titles prof =
      some_picked (id ∷ ids) (picked_titles (id ∷ ids) titles)

-- The folders of bonus material.
pub data ExtrasBucket : Type 0 where
  trailer featurette behind_the_scenes : ExtrasBucket

unfoldable pub bucket_folder : ExtrasBucket → Text
bucket_folder trailer = codes "trailers"
bucket_folder featurette = codes "featurettes"
bucket_folder behind_the_scenes = codes "behind the scenes"

unfoldable pub bucket_label : ExtrasBucket → Text
bucket_label trailer = codes "Trailer"
bucket_label featurette = codes "Featurette"
bucket_label behind_the_scenes = codes "Behind The Scenes"

unfoldable pub classify_extra_by_duration : ℕ → ExtrasBucket
classify_extra_by_duration secs =
    if leb secs 300 then trailer else if leb secs 1800 then featurette else behind_the_scenes
