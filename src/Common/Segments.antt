-- ===== src/Common/Segments.antt =====
-- Package strings on separators and white space: Split, Join and TrimSpace.
use Prim.Native.Nat.{ℕ}
use mathlib.Core.Path.{◌≡◌, refl}
use mathlib.Core.Bool.{Bool, true, false, ◌&&◌, ◌||◌}
use mathlib.Core.Logic.{inl, inr}
use mathlib.Core.List.{List, [], ◌∷◌, ◌++◌}
use native.Mathlib.Omega.{arith}
use disc_echo_dd.Common.Tests.{◌==◌, leb, if◌then◌else◌, Bool-cases}
use disc_echo_dd.Common.Lists.{All}
use disc_echo_dd.Common.Texts.{Text, is_empty}

abbrev pub push : ℕ → List Text → List Text
push c [] = (c ∷ []) ∷ []
push c (w ∷ ws) = (c ∷ w) ∷ ws

-- strings.Split by a separator of one character.
unfoldable pub split_on : ℕ → Text → List Text
split_on d [] = [] ∷ []
split_on d (c ∷ s) = let rest = split_on d s in if c == d then [] ∷ rest else push c rest

-- strings.Join
unfoldable pub join_with : Text → List Text → Text
join_with d [] = []
join_with d (w ∷ []) = w
join_with d (w ∷ v ∷ ws) = w ++ (d ++ join_with d (v ∷ ws))

-- unicode.IsSpace
unfoldable pub is_space : ℕ → Bool
is_space c =
    leb 9 c && leb c 13
    || c == 32
    || c == 133
    || c == 160
    || c == 5760
    || leb 8192 c && leb c 8202
    || c == 8232
    || c == 8233
    || c == 8239
    || c == 8287
    || c == 12288

unfoldable pub trim_start : Text → Text
trim_start [] = []
trim_start (c ∷ s) = let rest = trim_start s in if is_space c then rest else c ∷ s

unfoldable pub trim_end : Text → Text
trim_end [] = []
trim_end (c ∷ s) = let rest = trim_end s in if is_space c && is_empty rest then [] else c ∷ rest

-- strings.TrimSpace
unfoldable pub trim_space : Text → Text
unfolding trim_start trim_end
trim_space s = trim_end (trim_start s)

-- A text without the separator.
abbrev pub Free : ℕ → Text → Type 0
Free d s = All (λ c. (c == d) ≡ false) s

module _ {κ} (P : ℕ → Type κ) where
  push-All : (c : ℕ) (ws : List Text) → P c → All (All P) ws → All (All P) (push c ws)
  push-All c [] p a = ((p, tt), tt)
  push-All c (w ∷ ws) p (q, a) = ((p, q), a)

  -- The pieces have the characters of the text.
  pub split_on-All : (d : ℕ) (s : Text) → All P s → All (All P) (split_on d s)
  unfolding split_on
  split_on-All d [] a = (tt, tt)
  split_on-All d (c ∷ s) (p, a) = elim (Bool-cases (c == d)) [
    | inl t ↦ rw t (tt, split_on-All d s a)
    | inr f ↦ rw f (push-All c (split_on d s) p (split_on-All d s a))
  ]

  trim_start-All : (s : Text) → All P s → All P (trim_start s)
  unfolding trim_start
  trim_start-All [] a = tt
  trim_start-All (c ∷ s) (p, a) = elim (Bool-cases (is_space c)) [
    | inl t ↦ rw t (trim_start-All s a)
    | inr f ↦ rw f (p, a)
  ]

  trim_end-All : (s : Text) → All P s → All P (trim_end s)
  unfolding trim_end
  trim_end-All [] a = tt
  trim_end-All (c ∷ s) (p, a) = elim (Bool-cases (is_space c && is_empty (trim_end s))) [
    | inl t ↦ rw t tt
    | inr f ↦ rw f (p, trim_end-All s a)
  ]

  pub trim_space-All : (s : Text) → All P s → All P (trim_space s)
  unfolding trim_space
  trim_space-All s a = trim_end-All (trim_start s) (trim_start-All s a)

push-Free :
    (d c : ℕ) (ws : List Text) → (c == d) ≡ false → All (Free d) ws → All (Free d) (push c ws)
push-Free d c ws = push-All (λ c. (c == d) ≡ false) c ws

-- No piece has the separator.
pub split_on-Free : (d : ℕ) (s : Text) → All (Free d) (split_on d s)
unfolding split_on
split_on-Free d [] = (tt, tt)
split_on-Free d (c ∷ s) = elim (Bool-cases (c == d)) [
  | inl t ↦ rw t (tt, split_on-Free d s)
  | inr f ↦ rw f (push-Free d c (split_on d s) f (split_on-Free d s))
]

pub split_on-end : (d : ℕ) (w : Text) → Free d w → split_on d w ≡ w ∷ []
unfolding split_on
split_on-end d [] h = refl
split_on-end d (c ∷ w) (f, h) = rw (f, split_on-end d w h)

pub split_on-append : (d : ℕ) (w s : Text) → Free d w → split_on d (w ++ d ∷ s) ≡ w ∷ split_on d s
unfolding split_on
split_on-append d [] s h = let same : (d == d) ≡ true = ground arith in rw same
split_on-append d (c ∷ w) s (f, h) = rw (f, split_on-append d w s h)

join_more :
    (d : ℕ) (w v : Text) (ws : List Text)
    → join_with (d ∷ []) (w ∷ v ∷ ws) ≡ w ++ d ∷ join_with (d ∷ []) (v ∷ ws)
unfolding join_with
join_more d w v ws = refl

-- Splitting what was joined gives the pieces back.
pub split_on-join_with :
    (d : ℕ) (w : Text) (ws : List Text)
    → All (Free d) (w ∷ ws)
    → split_on d (join_with (d ∷ []) (w ∷ ws)) ≡ w ∷ ws
unfolding join_with
split_on-join_with d w [] (h, a) = split_on-end d w h
split_on-join_with d w (v ∷ ws) (h, a) = rw (
  join_more d w v ws,
  split_on-append d w (join_with (d ∷ []) (v ∷ ws)) h,
  split_on-join_with d v ws a,
)

trim_end_twice : (s : Text) → trim_end (trim_end s) ≡ trim_end s
unfolding trim_end
trim_end_twice [] = refl
trim_end_twice (c ∷ s) = elim (Bool-cases (is_space c && is_empty (trim_end s))) [
  | inl t ↦ rw t
  | inr f ↦ rw (f, trim_end_twice s, f)
]

-- A text that does not start with a space keeps its start.
trim_start-trim_end : (s : Text) → trim_start (trim_end (trim_start s)) ≡ trim_end (trim_start s)
unfolding trim_start trim_end
trim_start-trim_end [] = refl
trim_start-trim_end (c ∷ s) = elim (Bool-cases (is_space c)) [
  | inl t ↦ rw t (trim_start-trim_end s)
  | inr f ↦ rw (f, f, f)
]

pub trim_space_twice : (s : Text) → trim_space (trim_space s) ≡ trim_space s
unfolding trim_space
trim_space_twice s = rw (trim_start-trim_end s, trim_end_twice (trim_start s))
