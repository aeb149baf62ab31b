-- ===== src/State/Settings.antt =====
-- daemon/state/store.go: the settings, a table of texts by key. A read that fails counts as a missing
-- key in every caller of `get_bool` and `get_int`.
use disc_echo_dd.Common.{
  ℕ, ◌≤◌, ◌≡◌, refl, Bool, false, List, [], ◌∷◌, Option, none, some, Text, text_eq, text_eq_refl,
  text_eq_iff, if◌then◌else◌, Bool-cases, inl, inr, Result, ok, err, not_found, ℤ, pos, atoi, itoa,
  parse_bool, max_int, atoi-itoa,
}

abbrev pub Settings : Type 0
Settings = List (Text × Text)

unfoldable pub get_setting : Text → Settings → Result Text
get_setting key [] = err not_found
get_setting key ((k, v) ∷ rows) =
    let rest = get_setting key rows in if text_eq k key then ok v else rest

-- INSERT … ON CONFLICT(key) DO UPDATE
unfoldable pub set_setting : Text → Text → Settings → Settings
set_setting key value [] = (key, value) ∷ []
set_setting key value ((k, v) ∷ rows) =
    let rest = set_setting key value rows in
    if text_eq k key then (k, value) ∷ rows else (k, v) ∷ rest

abbrev pub or_else {ℓ} : {A : Type ℓ} → A → Option A → A
or_else d none = d
or_else d (some a) = a

abbrev bool_of : Result Text → Bool
bool_of (err e) = false
bool_of (ok v) = or_else false (parse_bool v)

-- The check for the empty value is the parser's: it reads nothing from an empty text.
unfoldable pub get_bool : Text → Settings → Bool
unfolding get_setting parse_bool
get_bool key s = bool_of (get_setting key s)

abbrev int_of : Result Text → ℤ
int_of (err e) = pos 0
int_of (ok v) = or_else (pos 0) (atoi v)

unfoldable pub get_int : Text → Settings → ℤ
unfolding get_setting atoi
get_int key s = int_of (get_setting key s)

-- A setting reads back as it was written last.
pub get-set_setting :
    (key value : Text) (s : Settings) → get_setting key (set_setting key value s) ≡ ok value
unfolding get_setting set_setting
get-set_setting key value [] = rw (text_eq_refl key)
get-set_setting key value ((k, v) ∷ rows) = elim (Bool-cases (text_eq k key)) [
  | inl t ↦ rw (t, t)
  | inr f ↦ rw (f, f) (get-set_setting key value rows)
]

-- A write leaves the other settings alone.
pub get-set_other :
    (key other value : Text) (s : Settings)
    → text_eq key other ≡ false
    → get_setting other (set_setting key value s) ≡ get_setting other s
unfolding get_setting set_setting
get-set_other key other value [] h = rw h
get-set_other key other value ((k, v) ∷ rows) h = elim (Bool-cases (text_eq k key)) [
  | inl t ↦
      let same : k ≡ key = (text_eq_iff k key).0 t in
      let differs : text_eq k other ≡ false = rw same h in rw (t, differs)
  | inr f ↦ elim (Bool-cases (text_eq k other)) [
    | inl u ↦ rw (f, u)
    | inr u ↦ rw (f, u) (get-set_other key other value rows h)
  ]
]

-- A count that is stored as a text reads back as the number.
pub get_int-set_setting :
    (key : Text) (n : ℕ) (s : Settings)
    → n ≤ max_int
    → get_int key (set_setting key (itoa (pos n)) s) ≡ pos n
unfolding get_int
get_int-set_setting key n s h = rw (get-set_setting key (itoa (pos n)) s, atoi-itoa n h) refl
