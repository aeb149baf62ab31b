-- ===== src/Pipelines/Output/Paths.antt =====
-- The output paths of daemon/pipelines/output.go stay below the library root.
use disc_echo_dd.Common.{
  text_eq, is_empty, ℕ, ◌≡◌, refl, ap, ◌∙◌, inl, inr, Bool, true, false, not, ◌||◌, List, [], ◌∷◌,
  ◌++◌, Text, codes, leb, ◌==◌, keep_if, map, All, All-map, All-append, Bool-cases, split_on,
  join_with, trim_space, Free, split_on-All, split_on-Free, split_on-join_with, trim_space-All,
  trim_space_twice, arith,
}
use disc_echo_dd.Pipelines.Output.{
  strip_control_chars, is_dropped, path_pieces, without_nul, sanitize_rel_path,
  sanitize_field_value,
}

-- Above the control characters of ASCII, or a tab.
abbrev pub Printed : ℕ → Type 0
Printed c = (leb 32 c || c == 9) ≡ true

-- A directory entry's name: it neither climbs nor splits, and has no space at its ends.
pub record Segment (s : Text) : Type 0 where
  pub full : is_empty s ≡ false
  pub not_here : text_eq s (codes ".") ≡ false
  pub not_up : text_eq s (codes "..") ≡ false
  pub slash_free : Free b'/' s
  pub printed : All Printed s
  pub trimmed : trim_space s ≡ s

All-keep_if :
    {A : Type 0} (P Q : A → Type 0) (p : A → Bool) (xs : List A)
    → ((x : A) → p x ≡ true → P x → Q x)
    → All P xs
    → All Q (keep_if p xs)
All-keep_if P Q p [] h a = tt
All-keep_if P Q p (x ∷ xs) h (q, a) = elim (Bool-cases (p x)) [
  | inl t ↦ rw t (h x t q, All-keep_if P Q p xs h a)
  | inr f ↦ rw f (All-keep_if P Q p xs h a)
]

strip-Printed : (s : Text) → All Printed (strip_control_chars s)
unfolding strip_control_chars
strip-Printed [] = tt
strip-Printed (c ∷ s) = elim (Bool-cases (leb 32 c || c == 9)) [
  | inl t ↦ rw t (t, strip-Printed s)
  | inr f ↦ rw f (strip-Printed s)
]

strip-same : (s : Text) → All Printed s → strip_control_chars s ≡ s
unfolding strip_control_chars
strip-same [] a = refl
strip-same (c ∷ s) (t, a) = rw (t, strip-same s a)

without_nul-same : (s : Text) → All Printed s → without_nul s ≡ s
unfolding without_nul
without_nul-same [] a = refl
without_nul-same (c ∷ s) (t, a) =
    let apart : (c == 0) ≡ false = ground (arith, t) in rw (apart, without_nul-same s a)

map-same :
    (f : Text → Text) (P : Text → Type 0) (xs : List Text)
    → ((x : Text) → P x → f x ≡ x)
    → All P xs
    → map f xs ≡ xs
map-same f P [] h a = refl
map-same f P (x ∷ xs) h (p, a) = rw (h x p, map-same f P xs h a)

-- A piece between slashes, before the trim.
abbrev Piece : Text → Type 0
Piece s = Free b'/' s × All Printed s

All-both :
    {A : Type 0} (P Q : A → Type 0) (xs : List A) → All P xs → All Q xs → All (λ x. P x × Q x) xs
All-both P Q [] a b = tt
All-both P Q (x ∷ xs) (p, a) (q, b) = ((p, q), All-both P Q xs a b)

All-trim :
    (xs : List Text) → All Piece xs → All (λ s. Piece s × (trim_space s ≡ s)) (map trim_space xs)
All-trim [] a = tt
All-trim (x ∷ xs) ((f, p), a) = (
  ((trim_space-All (λ c. (c == b'/') ≡ false) x f, trim_space-All Printed x p), trim_space_twice x),
  All-trim xs a,
)

kept-apart :
    (p : Text)
    → not (is_dropped p) ≡ true
    → (is_empty p ≡ false) × (text_eq p (codes ".") ≡ false) × (text_eq p (codes "..") ≡ false)
unfolding is_dropped
kept-apart p named = ground (arith, named)

apart-kept : (p : Text) → Segment p → not (is_dropped p) ≡ true
unfolding is_dropped
apart-kept p s = rw (s.full, s.not_here, s.not_up) refl

pieces-Segment : (s : Text) → All Printed s → All Segment (path_pieces s)
unfolding path_pieces
pieces-Segment s a =
    All-keep_if (λ s. Piece s × (trim_space s ≡ s)) Segment (λ p. not (is_dropped p))
      (map trim_space (split_on b'/' s))
      (λ x named ((f, p), t). record {
        full = (kept-apart x named).0;
        not_here = (kept-apart x named).1;
        not_up = (kept-apart x named).2;
        slash_free = f;
        printed = p;
        trimmed = t;
      })
      (All-trim (split_on b'/' s) (
        All-both (Free b'/') (All Printed) (split_on b'/' s) (split_on-Free b'/' s)
          (split_on-All Printed b'/' s a)))

abbrev slash : Text
slash = b'/' ∷ []

keep_all : (p : Text → Bool) (xs : List Text) → All (λ x. p x ≡ true) xs → keep_if p xs ≡ xs
keep_all p [] a = refl
keep_all p (x ∷ xs) (t, a) = rw (t, keep_all p xs a)

kept_trimmed :
    (ws : List Text) → All Segment ws → keep_if (λ p. not (is_dropped p)) (map trim_space ws) ≡ ws
kept_trimmed ws a =
    ap (keep_if (λ p. not (is_dropped p))) (map-same trim_space Segment ws (λ x s. s.trimmed) a)
    ∙ keep_all (λ p. not (is_dropped p)) ws
        (All-map Segment (λ x. not (is_dropped x) ≡ true) ws apart-kept a)

-- Segments that are joined are the pieces of the path.
pieces-join : (ws : List Text) → All Segment ws → path_pieces (join_with slash ws) ≡ ws
unfolding path_pieces join_with split_on trim_space is_dropped
pieces-join [] a = refl
pieces-join (w ∷ ws) a =
    rw (split_on-join_with b'/' w ws (All-map Segment (Free b'/') (w ∷ ws) (λ x s. s.slash_free) a))
      (kept_trimmed (w ∷ ws) a)

Printed-append : (s t : Text) → All Printed s → All Printed t → All Printed (s ++ t)
Printed-append s t = All-append Printed s t

join-Printed : (ws : List Text) → All Segment ws → All Printed (join_with slash ws)
unfolding join_with
join-Printed [] a = tt
join-Printed (w ∷ []) (s, a) = s.printed
join-Printed (w ∷ v ∷ ws) (s, a) =
    Printed-append w (b'/' ∷ join_with slash (v ∷ ws)) s.printed (refl, join-Printed (v ∷ ws) a)

abbrev pub segments : Text → List Text
segments p = path_pieces (strip_control_chars p)

segments-Segment : (p : Text) → All Segment (segments p)
segments-Segment p = pieces-Segment (strip_control_chars p) (strip-Printed p)

sanitize-join : (p : Text) → sanitize_rel_path p ≡ join_with slash (segments p)
unfolding sanitize_rel_path
sanitize-join p = rw (
    map-same without_nul (All Printed) (segments p) without_nul-same
      (All-map Segment (All Printed) (segments p) (λ x s. s.printed) (segments-Segment p)))

-- A sanitized path is made of directory entries: each is non-empty, neither "." nor "..", without a
-- slash, a control character below U+0020 other than the tab or a space at its ends; sanitizing the
-- path again does not change it.
pub sanitize_rel_path_safe :
    (p : Text)
    → (sanitize_rel_path p ≡ join_with slash (segments p))
      × All Segment (segments p)
      × (sanitize_rel_path (sanitize_rel_path p) ≡ sanitize_rel_path p)
sanitize_rel_path_safe p = (sanitize-join p, segments-Segment p, again)
  where
    again : sanitize_rel_path (sanitize_rel_path p) ≡ sanitize_rel_path p
    again =
        let a = segments-Segment p in
        rw (
          sanitize-join (sanitize_rel_path p),
          sanitize-join p,
          strip-same (join_with slash (segments p)) (join-Printed (segments p) a),
          pieces-join (segments p) a,
        )

join-Free : (ws : List Text) → All (Free b'/') ws → Free b'/' (join_with (codes "_") ws)
unfolding join_with
join-Free [] a = tt
join-Free (w ∷ []) (f, a) = f
join-Free (w ∷ v ∷ ws) (f, a) =
    All-append (λ c. (c == b'/') ≡ false) w (codes "_" ++ join_with (codes "_") (v ∷ ws)) f
      (refl, join-Free (v ∷ ws) a)

-- The value of a field never adds a path component.
pub sanitize_field_value-Free : (s : Text) → Free b'/' (sanitize_field_value s)
unfolding sanitize_field_value path_pieces
sanitize_field_value-Free s = join-Free (path_pieces s) (
    All-keep_if (Free b'/') (Free b'/') (λ p. not (is_dropped p)) (map trim_space (split_on b'/' s))
      (λ x t f. f) (trimmed (split_on b'/' s) (split_on-Free b'/' s)))
  where
    trimmed : (xs : List Text) → All (Free b'/') xs → All (Free b'/') (map trim_space xs)
    trimmed [] a = tt
    trimmed (x ∷ xs) (f, a) = (trim_space-All (λ c. (c == b'/') ≡ false) x f, trimmed xs a)
