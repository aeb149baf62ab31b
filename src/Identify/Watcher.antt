-- ===== src/Identify/Watcher.antt =====
-- daemon/identify/classify.go: cdInfoWatcher, the writer that sees the disc-mode line of cd-info's
-- output as it arrives, and ClassifyFromCDInfo, which reads the whole output.
pub mod Fires
use disc_echo_dd.Common.{
  ℕ, Bool, true, false, not, ◌&&◌, ◌||◌, List, [], ◌∷◌, ◌++◌, Text, codes, is_empty, if◌then◌else◌,
  leb, ◌==◌, any_of, has_prefix, contains, to_lower, split_on, trim_space, Result, ok, err, message,
}
use disc_echo_dd.State.Types.{DiscType}

abbrev pub cd_info_error_markers : List Text
cd_info_error_markers = codes "error in getting information" ∷ codes "unknown" ∷ []

unfoldable pub looks_like_cd_info_error : Text → Bool
unfolding to_lower contains
looks_like_cd_info_error value =
    let low = to_lower value in any_of (contains low) cd_info_error_markers

-- `s[n:]` for the length `n` of a prefix of `s`.
abbrev pub after_prefix : Text → Text → Text
after_prefix [] s = s
after_prefix (c ∷ p) [] = []
after_prefix (c ∷ p) (d ∷ s) = after_prefix p s

-- `found` is whether the channel of that name is closed.
pub record CdInfoWatcher : Type 0 where
  pub buf : Text
  pub line : Text
  pub prefix : Text
  pub found : Bool

unfoldable pub new_cd_info_watcher : Text → CdInfoWatcher
new_cd_info_watcher prefix = record { buf = []; line = []; prefix = prefix; found = false }

-- A line that has the prefix and behind it a value that is no error.
unfoldable pub is_usable : Text → Text → Bool
unfolding has_prefix trim_space looks_like_cd_info_error
is_usable prefix line =
    let value = trim_space (after_prefix prefix line) in
    has_prefix line prefix && (not (is_empty value) && not (looks_like_cd_info_error value))

-- One turn of the loop of Write.
unfoldable pub write_byte : CdInfoWatcher → ℕ → CdInfoWatcher
unfolding is_usable
write_byte w b =
    if b == b'\n'
    then record w { line = []; found = w.found || is_usable w.prefix w.line }
    else record w { line = w.line ++ b ∷ [] }

unfoldable pub write_bytes : CdInfoWatcher → Text → CdInfoWatcher
unfolding write_byte
write_bytes w [] = w
write_bytes w (b ∷ p) = write_bytes (write_byte w b) p

unfoldable pub write : CdInfoWatcher → Text → CdInfoWatcher
unfolding write_bytes
write w p = write_bytes (record w { buf = w.buf ++ p }) p

-- `\w` on ASCII.
abbrev is_word : ℕ → Bool
is_word c =
    leb b'0' c && leb c b'9' || leb b'A' c && leb c b'Z' || leb b'a' c && leb c b'z' || c == b'_'

abbrev starts_word : Text → Bool
starts_word [] = false
starts_word (c ∷ s) = is_word c

-- `\bcd-da\b` on a text in lower case; `inside` is whether a word character stands before the text.
abbrev pub has_token_from : Bool → Text → Bool
has_token_from inside [] = false
has_token_from inside (c ∷ s) =
    not inside
      && (has_prefix (c ∷ s) (codes "cd-da")
          && not (starts_word (after_prefix (codes "cd-da") (c ∷ s))))
    || has_token_from (is_word c) s

-- The disc-mode line that names the CD-DA token.
unfoldable pub is_cd_da_line : Text → Bool
unfolding to_lower contains has_prefix
is_cd_da_line line =
    let l = to_lower line in contains l (codes "disc mode") && has_token_from false l

unfoldable pub classify_from_cd_info : Text → Result DiscType
unfolding trim_space split_on is_cd_da_line
classify_from_cd_info s =
    if is_empty (trim_space s)
    then err (message (codes "ClassifyFromCDInfo: empty input"))
    else if any_of is_cd_da_line (split_on b'\n' s)
    then ok DiscType.audio_cd
    else ok DiscType.data_disc
