-- ===== src/Pipelines/Output.antt =====
-- daemon/pipelines/output.go: where a pipeline's output goes, and what its log lines say of it.
pub mod Paths
use disc_echo_dd.Common.{
  ℕ, ◌+◌, ◌-◌, ◌*◌, ◌/◌, ◌%◌, Bool, true, false, not, ◌&&◌, ◌||◌, List, [], ◌∷◌, ◌++◌, Option, none,
  some, Text, codes, text_eq, is_empty, if◌then◌else◌, leb, ltb, ◌==◌, keep_if, map, Result, ok,
  err, GoError, wrapped, split_on, join_with, trim_space, format, parse_bool,
}
use disc_echo_dd.State.Settings.{Settings, get_setting, or_else}

abbrev text_of : Result Text → Text
text_of (ok v) = v
text_of (err e) = []

-- Eject unless a valid setting says no; a read that fails is as a missing row.
unfoldable pub should_eject_on_finish : Settings → Bool
unfolding get_setting text_eq parse_bool
should_eject_on_finish s =
    if text_eq (text_of (get_setting (codes "operation.mode") s)) (codes "manual")
    then false
    else or_else true (parse_bool (text_of (get_setting (codes "rip.eject_on_finish") s)))

-- `f` is the caller's closure, if there is one.
unfoldable pub resolve_should_eject : Option Bool → Bool
resolve_should_eject none = true
resolve_should_eject (some b) = b

unfoldable pub strip_control_chars : Text → Text
strip_control_chars = keep_if (λ c. leb 32 c || c == 9)

-- A piece that names neither a file nor a directory of its own.
unfoldable pub is_dropped : Text → Bool
unfolding text_eq
is_dropped p = is_empty p || text_eq p (codes ".") || text_eq p (codes "..")

-- The pieces between the slashes, trimmed, without the empty ones and those that climb.
unfoldable pub path_pieces : Text → List Text
unfolding split_on trim_space is_dropped
path_pieces s = keep_if (λ p. not (is_dropped p)) (map trim_space (split_on b'/' s))

unfoldable pub sanitize_field_value : Text → Text
unfolding path_pieces join_with
sanitize_field_value s = join_with (codes "_") (path_pieces s)

-- strings.ReplaceAll(seg, "\x00", "")
unfoldable pub without_nul : Text → Text
without_nul = keep_if (λ c. not (c == 0))

unfoldable pub sanitize_rel_path : Text → Text
unfolding strip_control_chars path_pieces without_nul join_with
sanitize_rel_path p = join_with (codes "/") (map without_nul (path_pieces (strip_control_chars p)))

pub record OutputFields : Type 0 where
  pub artist : Text
  pub album : Text
  pub year : ℕ
  pub track_number : ℕ
  pub title : Text
  pub disc_number : ℕ
  pub show : Text
  pub season : ℕ
  pub episode_number : ℕ
  pub episode_title : Text
  pub is_extra : Bool
  pub region : Text
  pub short_hash : Text

pub data FieldValue : Type 0 where
  text : Text → FieldValue
  number : ℕ → FieldValue
  bool : Bool → FieldValue

unfoldable pub as_map : OutputFields → List (Text × FieldValue)
unfolding sanitize_field_value
as_map f =
    (codes "Artist", FieldValue.text (sanitize_field_value f.artist))
    ∷ (codes "Album", FieldValue.text (sanitize_field_value f.album))
    ∷ (codes "Year", FieldValue.number f.year)
    ∷ (codes "TrackNumber", FieldValue.number f.track_number)
    ∷ (codes "Title", FieldValue.text (sanitize_field_value f.title))
    ∷ (codes "DiscNumber", FieldValue.number f.disc_number)
    ∷ (codes "Show", FieldValue.text (sanitize_field_value f.show))
    ∷ (codes "Season", FieldValue.number f.season)
    ∷ (codes "EpisodeNumber", FieldValue.number f.episode_number)
    ∷ (codes "EpisodeTitle", FieldValue.text (sanitize_field_value f.episode_title))
    ∷ (codes "IsExtra", FieldValue.bool f.is_extra)
    ∷ (codes "Region", FieldValue.text (sanitize_field_value f.region))
    ∷ (codes "ShortHash", FieldValue.text (sanitize_field_value f.short_hash))
    ∷ []

-- `render` stands for text/template: the text of a template under the fields, or the error of its
-- parse or of its execution.
unfoldable pub render_output_path :
    (Text → List (Text × FieldValue) → Result Text) → Text → OutputFields → Result Text
unfolding as_map sanitize_rel_path
render_output_path render tmpl f = elim (render tmpl (as_map f)) [
  | ok s ↦ ok (sanitize_rel_path s)
  | err e ↦ err e
]

-- A duration of whole seconds.
unfoldable pub human_duration : ℕ → Text
unfolding format
human_duration secs =
    let h = secs / 3600 in
    let m = secs % 3600 / 60 in
    let s = format (secs % 60) ++ codes "s" in
    if ltb 0 h
    then format h ++ codes "h " ++ format m ++ codes "m " ++ s
    else if ltb 0 m
    then format m ++ codes "m " ++ s
    else s
