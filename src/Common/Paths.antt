-- ===== src/Common/Paths.antt =====
-- Package filepath on slash-separated paths: Clean and Join of two elements.
use Prim.Native.Nat.{ℕ}
use mathlib.Core.Path.{◌≡◌, refl, subst}
use mathlib.Core.Bool.{Bool, true, false, ◌||◌}
use mathlib.Core.Logic.{inl, inr}
use mathlib.Core.List.{List, [], ◌∷◌, ◌++◌, append_assoc}
use native.Mathlib.Omega.{arith}
use disc_echo_dd.Common.Tests.{◌==◌, if◌then◌else◌, Bool-cases}
use disc_echo_dd.Common.Texts.{Text, codes, is_empty, text_eq, has_prefix}
use disc_echo_dd.Common.Segments.{split_on, join_with, push, Free, split_on-end}

abbrev drop_last : List Text → List Text
drop_last [] = []
drop_last (x ∷ []) = []
drop_last (x ∷ y ∷ xs) = x ∷ drop_last (y ∷ xs)

abbrev ends_up : List Text → Bool
ends_up [] = false
ends_up (x ∷ []) = text_eq x (codes "..")
ends_up (x ∷ y ∷ xs) = ends_up (y ∷ xs)

abbrev no_parts : List Text → Bool
no_parts [] = true
no_parts (x ∷ xs) = false

-- What ".." does to the parts so far: above the root of a rooted path it is left out.
abbrev climb : Bool → List Text → List Text
climb rooted out =
    if no_parts out || ends_up out
    then (if rooted then [] else out ++ codes ".." ∷ [])
    else drop_last out

-- One part between slashes, after the parts so far.
unfoldable pub clean_part : Bool → List Text → Text → List Text
unfolding text_eq
clean_part rooted out part =
    if is_empty part || text_eq part (codes ".")
    then out
    else if text_eq part (codes "..")
    then climb rooted out
    else out ++ part ∷ []

unfoldable pub clean_parts : Bool → List Text → List Text → List Text
unfolding clean_part
clean_parts rooted out [] = out
clean_parts rooted out (p ∷ ps) = clean_parts rooted (clean_part rooted out p) ps

abbrev pub slashed : Text → Bool
slashed s = has_prefix s (codes "/")

-- The text of the parts of a path.
unfoldable pub parts_text : Bool → List Text → Text
unfolding join_with
parts_text rooted out =
    if rooted
    then b'/' ∷ join_with (b'/' ∷ []) out
    else (let text = join_with (b'/' ∷ []) out in if is_empty text then codes "." else text)

-- filepath.Clean
unfoldable pub clean : Text → Text
unfolding has_prefix split_on clean_parts parts_text
clean p = parts_text (slashed p) (clean_parts (slashed p) [] (split_on b'/' p))

-- filepath.Join of two elements
unfoldable pub join_path : Text → Text → Text
unfolding clean
join_path [] [] = []
join_path [] (c ∷ name) = clean (c ∷ name)
join_path (c ∷ dir) name = clean ((c ∷ dir) ++ b'/' ∷ name)

push-append :
    (c : ℕ) (d : ℕ) (s : Text) (w : Text)
    → push c (split_on d s ++ w ∷ []) ≡ push c (split_on d s) ++ w ∷ []
unfolding split_on
push-append c d [] w = refl
push-append c d (e ∷ s) w = elim (Bool-cases (e == d)) [
  | inl t ↦ rw t
  | inr f ↦ rw f (pushed (split_on d s))
]
  where
    pushed : (ls : List Text) → push c (push e ls ++ w ∷ []) ≡ push c (push e ls) ++ w ∷ []
    pushed [] = refl
    pushed (l ∷ ls) = refl

-- What stands behind the last separator is the last piece.
split_on-last : (d : ℕ) (s w : Text) → Free d w → split_on d (s ++ d ∷ w) ≡ split_on d s ++ w ∷ []
unfolding split_on
split_on-last d [] w f = let same : (d == d) ≡ true = ground arith in rw (same, split_on-end d w f)
split_on-last d (c ∷ s) w f = elim (Bool-cases (c == d)) [
  | inl t ↦ rw (t, split_on-last d s w f)
  | inr u ↦ rw (u, split_on-last d s w f) (push-append c d s w)
]

-- A part that names an entry.
pub record IsEntry (w : Text) : Type 0 where
  pub full : is_empty w ≡ false
  pub not_here : text_eq w (codes ".") ≡ false
  pub not_up : text_eq w (codes "..") ≡ false
  pub one : Free b'/' w

clean_parts-last :
    (r : Bool) (out ps : List Text) (w : Text)
    → IsEntry w
    → clean_parts r out (ps ++ w ∷ []) ≡ clean_parts r out ps ++ w ∷ []
unfolding clean_parts clean_part
clean_parts-last r out [] w e = rw (e.full, e.not_here, e.not_up)
clean_parts-last r out (p ∷ ps) w e = clean_parts-last r (clean_part r out p) ps w e

-- A text that is a name alone or a name behind a slash.
pub data EndsIn (w : Text) : Text → Type 0 where
  alone : EndsIn w w
  behind : (dir : Text) → EndsIn w (dir ++ b'/' ∷ w)

prepend-EndsIn : (x w t : Text) → EndsIn w t → EndsIn w (x ++ b'/' ∷ t)
prepend-EndsIn x w _ EndsIn.alone = EndsIn.behind x
prepend-EndsIn x w _ (EndsIn.behind dir) =
    subst (EndsIn w) (append_assoc x (b'/' ∷ dir) (b'/' ∷ w)) (EndsIn.behind (x ++ b'/' ∷ dir))

join-EndsIn : (out : List Text) (w : Text) → EndsIn w (join_with (b'/' ∷ []) (out ++ w ∷ []))
unfolding join_with
join-EndsIn [] w = EndsIn.alone
join-EndsIn (x ∷ []) w = EndsIn.behind x
join-EndsIn (x ∷ y ∷ xs) w = prepend-EndsIn x w _ (join-EndsIn (y ∷ xs) w)

EndsIn-nonempty : (w t : Text) → is_empty w ≡ false → EndsIn w t → is_empty t ≡ false
EndsIn-nonempty w _ f EndsIn.alone = f
EndsIn-nonempty w _ f (EndsIn.behind []) = refl
EndsIn-nonempty w _ f (EndsIn.behind (c ∷ dir)) = refl

parts-EndsIn :
    (r : Bool) (out : List Text) (w : Text)
    → is_empty w ≡ false
    → EndsIn w (parts_text r (out ++ w ∷ []))
unfolding parts_text
parts-EndsIn true out w f = prepend-EndsIn [] w _ (join-EndsIn out w)
parts-EndsIn false out w f =
    let named = EndsIn-nonempty w (join_with (b'/' ∷ []) (out ++ w ∷ [])) f (join-EndsIn out w) in
    rw named (join-EndsIn out w)

-- A joined path ends in the entry's name.
pub join_path-EndsIn : (dir w : Text) → IsEntry w → EndsIn w (join_path dir w)
unfolding join_path clean clean_parts
join_path-EndsIn [] [] e = EndsIn.alone
join_path-EndsIn [] (c ∷ w) e =
    rw (split_on-end b'/' (c ∷ w) e.one, clean_parts-last (slashed (c ∷ w)) [] [] (c ∷ w) e)
      (parts-EndsIn (slashed (c ∷ w)) [] (c ∷ w) refl)
join_path-EndsIn (c ∷ dir) w e =
    let r = slashed ((c ∷ dir) ++ b'/' ∷ w) in
    rw (split_on-last b'/' (c ∷ dir) w e.one, clean_parts-last r [] (split_on b'/' (c ∷ dir)) w e)
      (parts-EndsIn r (clean_parts r [] (split_on b'/' (c ∷ dir))) w e.full)

parts-nonempty : (r : Bool) (out : List Text) → is_empty (parts_text r out) ≡ false
unfolding parts_text
parts-nonempty true out = refl
parts-nonempty false out = elim (Bool-cases (is_empty (join_with (b'/' ∷ []) out))) [
  | inl t ↦ rw t refl
  | inr f ↦ rw (f, f)
]

pub join_path-nonempty : (dir w : Text) → is_empty w ≡ false → is_empty (join_path dir w) ≡ false
unfolding join_path clean
join_path-nonempty [] [] f = f
join_path-nonempty [] (c ∷ w) f =
    let r = slashed (c ∷ w) in parts-nonempty r (clean_parts r [] (split_on b'/' (c ∷ w)))
join_path-nonempty (c ∷ dir) w f =
    let r = slashed ((c ∷ dir) ++ b'/' ∷ w) in
    parts-nonempty r (clean_parts r [] (split_on b'/' ((c ∷ dir) ++ b'/' ∷ w)))
