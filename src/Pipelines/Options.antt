-- ===== src/Pipelines/Options.antt =====
-- daemon/pipelines/options.go: reading a profile's options. A profile is `none` where the code's pointer
-- is nil. `ratio_of n pct` stands for `int(float64(n) * (float64(pct) / 100))`, in floating point.
use disc_echo_dd.Common.{
  ℕ, ◌*◌, ◌/◌, Bool, false, not, ◌&&◌, ◌||◌, List, [], ◌∷◌, ◌++◌, Option, none, some, Text, codes,
  text_eq, is_empty, if◌then◌else◌, ltb, ◌==◌, format,
}
use disc_echo_dd.State.Rows.{OptionValue, Profile}

unfoldable pub option_at : Text → List (Text × OptionValue) → Option OptionValue
option_at key [] = none
option_at key ((k, v) ∷ rows) =
    let rest = option_at key rows in if text_eq k key then some v else rest

abbrev pub option : Option Profile → Text → Option OptionValue
option none key = none
option (some p) key = option_at key p.options

abbrev number_or : ℕ → Option OptionValue → ℕ
number_or d (some (OptionValue.number n)) = n
number_or d _ = d

unfoldable pub int_option : Option Profile → Text → ℕ → ℕ
unfolding option_at
int_option prof key d = number_or d (option prof key)

abbrev text_or : Text → Option OptionValue → Text
text_or d (some (OptionValue.text s)) = if is_empty s then d else s
text_or d _ = d

unfoldable pub string_option : Option Profile → Text → Text → Text
unfolding option_at
string_option prof key d = text_or d (option prof key)

abbrev bool_or : Bool → Option OptionValue → Bool
bool_or d (some (OptionValue.bool b)) = b
bool_or d _ = d

unfoldable pub bool_option : Option Profile → Text → Bool → Bool
unfolding option_at
bool_option prof key d = bool_or d (option prof key)

unfoldable pub include_extras : Option Profile → Bool
unfolding bool_option
include_extras prof = bool_option prof (codes "include_extras") false

unfoldable pub min_extra_seconds : Option Profile → ℕ
unfolding int_option
min_extra_seconds prof = int_option prof (codes "min_extra_seconds") 60

-- The percentage whose hundredth the code returns.
unfoldable pub extras_max_ratio : Option Profile → ℕ
unfolding int_option
extras_max_ratio prof =
    let pct = int_option prof (codes "extras_max_ratio") 90 in
    if pct == 0 || ltb 100 pct then 90 else pct

unfoldable pub is_tv_profile : Option Profile → Bool
unfolding string_option text_eq
is_tv_profile prof =
    text_eq (string_option prof (codes "content_type") (codes "movie")) (codes "tv")

unfoldable pub library_root_for : Text → Text → Option Profile → Text
unfolding is_tv_profile
library_root_for movies_root tv_root prof =
    if is_tv_profile prof && not (is_empty tv_root) then tv_root else movies_root

unfoldable pub max_height : Option Profile → ℕ
unfolding int_option
max_height prof = int_option prof (codes "max_height") 0

unfoldable pub stereo_audio : Option Profile → Bool
unfolding bool_option
stereo_audio prof = bool_option prof (codes "stereo_audio") false

unfoldable pub resolution_and_audio_args : Option Profile → List Text
unfolding max_height stereo_audio format
resolution_and_audio_args prof =
    let h = max_height prof in
    (if ltb 0 h
      then codes "--maxHeight" ∷ format h ∷ codes "--maxWidth" ∷ format (h * 16 / 9) ∷ []
      else [])
    ++ (if stereo_audio prof
        then codes "--aencoder"
          ∷ codes "av_aac"
          ∷ codes "--mixdown"
          ∷ codes "stereo"
          ∷ codes "--ab"
          ∷ format 160
          ∷ []
        else [])
