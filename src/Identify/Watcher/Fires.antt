-- ===== src/Identify/Watcher/Fires.antt =====
-- When the watcher of daemon/identify/classify.go sees the disc-mode line.
use disc_echo_dd.Common.{
  ℕ, ◌≡◌, refl, sym, ap, ◌∙◌, inl, inr, Bool, true, false, ◌||◌, List, [], ◌∷◌, ◌++◌, append-nil,
  append_assoc, Text, any_of, ◌==◌, ==_iff, Bool-cases, split_on, split_on-append, split_on-end,
  push, Free, All-append,
}
use disc_echo_dd.Identify.Watcher.{
  CdInfoWatcher, new_cd_info_watcher, is_usable, write_byte, write_bytes, write,
}

unfoldable pub all_but_last : List Text → List Text
all_but_last [] = []
all_but_last (l ∷ []) = []
all_but_last (l ∷ m ∷ ls) = l ∷ all_but_last (m ∷ ls)

-- The lines of a text that a line feed ends.
unfoldable pub complete_lines : Text → List Text
unfolding all_but_last split_on
complete_lines s = all_but_last (split_on b'\n' s)

-- A split is never empty.
data Filled : List Text → Type 0 where
  filled : (l : Text) (ls : List Text) → Filled (l ∷ ls)

push-Filled : (c : ℕ) (ls : List Text) → Filled ls → Filled (push c ls)
push-Filled c _ (Filled.filled l ls) = Filled.filled (c ∷ l) ls

split_on-Filled : (d : ℕ) (s : Text) → Filled (split_on d s)
unfolding split_on
split_on-Filled d [] = Filled.filled [] []
split_on-Filled d (c ∷ s) = elim (Bool-cases (c == d)) [
  | inl t ↦ rw t (Filled.filled [] (split_on d s))
  | inr f ↦ rw f (push-Filled c (split_on d s) (split_on-Filled d s))
]

all_but_last-more :
    (w : Text) (ls : List Text) → Filled ls → all_but_last (w ∷ ls) ≡ w ∷ all_but_last ls
unfolding all_but_last
all_but_last-more w _ (Filled.filled l ls) = refl

complete_lines-append :
    (w s : Text) → Free b'\n' w → complete_lines (w ++ b'\n' ∷ s) ≡ w ∷ complete_lines s
unfolding complete_lines
complete_lines-append w s f =
    rw (
      split_on-append b'\n' w s f,
      all_but_last-more w (split_on b'\n' s) (split_on-Filled b'\n' s),
    )

complete_lines-none : (w : Text) → Free b'\n' w → complete_lines w ≡ []
unfolding complete_lines all_but_last
complete_lines-none w f = rw (split_on-end b'\n' w f)

-- The text that the writes make up.
abbrev pub joined : List Text → Text
joined [] = []
joined (p ∷ ps) = p ++ joined ps

unfoldable pub write_all : CdInfoWatcher → List Text → CdInfoWatcher
unfolding write
write_all w [] = w
write_all w (p ∷ ps) = write_all (write w p) ps

end_line :
    (w : CdInfoWatcher)
    → write_byte w b'\n' ≡ record w { line = []; found = w.found || is_usable w.prefix w.line }
unfolding write_byte
end_line w = refl

more_line :
    (w : CdInfoWatcher) (b : ℕ)
    → (b == b'\n') ≡ false
    → write_byte w b ≡ record w { line = w.line ++ b ∷ [] }
unfolding write_byte
more_line w b f = rw f

or_assoc : (a b c : Bool) → ((a || b) || c) ≡ (a || (b || c))
or_assoc true b c = refl
or_assoc false b c = refl

or_none : (a : Bool) → (a || false) ≡ a
or_none true = refl
or_none false = refl

-- While the line in progress has no line feed, the watcher fires by the lines that get complete.
bytes_found :
    (w : CdInfoWatcher) (p : Text)
    → Free b'\n' w.line
    → (write_bytes w p).found
      ≡ (w.found || any_of (is_usable w.prefix) (complete_lines (w.line ++ p)))
unfolding write_bytes
bytes_found w [] f = rw (append-nil w.line, complete_lines-none w.line f) (sym (or_none w.found))
bytes_found w (b ∷ p) f = elim (Bool-cases (b == b'\n')) [
  | inl t ↦
      (let e : b ≡ b'\n' = (==_iff b b'\n').0 t in
        let ended : CdInfoWatcher = record w {
          line = [];
          found = w.found || is_usable w.prefix w.line;
        } in
        rw e (
          ap (λ v. (write_bytes v p).found) (end_line w)
          ∙ bytes_found ended p tt
          ∙ or_assoc w.found (is_usable w.prefix w.line)
              (any_of (is_usable w.prefix) (complete_lines p))
          ∙ ap (λ ls. w.found || any_of (is_usable w.prefix) ls)
              (sym (complete_lines-append w.line p f))))
  | inr e ↦
      (let longer : CdInfoWatcher = record w { line = w.line ++ b ∷ [] } in
        ap (λ v. (write_bytes v p).found) (more_line w b e)
        ∙ bytes_found longer p (All-append (λ c. (c == b'\n') ≡ false) w.line (b ∷ []) f (e, tt))
        ∙ ap (λ s. w.found || any_of (is_usable w.prefix) (complete_lines s))
            (append_assoc w.line (b ∷ []) p))
]

-- The buffer does not matter to the lines, and the bytes of two writes are those of one.
bytes_append :
    (w : CdInfoWatcher) (p q : Text) → write_bytes w (p ++ q) ≡ write_bytes (write_bytes w p) q
unfolding write_bytes
bytes_append w [] q = refl
bytes_append w (b ∷ p) q = bytes_append (write_byte w b) p q

bytes_buf :
    (w : CdInfoWatcher) (b p : Text)
    → write_bytes (record w { buf = b }) p ≡ record (write_bytes w p) { buf = b }
unfolding write_bytes write_byte
bytes_buf w b [] = refl
bytes_buf w b (c ∷ p) = ap (λ v. write_bytes v p) (byte_buf w b c) ∙ bytes_buf (write_byte w c) b p
  where
    byte_buf :
        (w : CdInfoWatcher) (b : Text) (c : ℕ)
        → write_byte (record w { buf = b }) c ≡ record (write_byte w c) { buf = b }
    byte_buf w b c = elim (Bool-cases (c == b'\n')) [ inl t ↦ rw t | inr f ↦ rw f ]

kept_buf : (w : CdInfoWatcher) (p : Text) → (write_bytes w p).buf ≡ w.buf
kept_buf w p = ap (λ v. v.buf) (bytes_buf w w.buf p)

write_more : (w : CdInfoWatcher) (p q : Text) → write (write w p) q ≡ write w (p ++ q)
unfolding write
write_more w p q =
    ap (λ b. write_bytes (record (write w p) { buf = b ++ q }) q)
      (kept_buf (record w { buf = w.buf ++ p }) p)
    ∙ ap (λ v. write_bytes (record v { buf = (w.buf ++ p) ++ q }) q) (bytes_buf w (w.buf ++ p) p)
    ∙ ap (λ v. write_bytes v q) (sym (bytes_buf w ((w.buf ++ p) ++ q) p))
    ∙ sym (bytes_append (record w { buf = (w.buf ++ p) ++ q }) p q)
    ∙ ap (λ b. write_bytes (record w { buf = b }) (p ++ q)) (append_assoc w.buf p q)

write_all-joined : (w : CdInfoWatcher) (ps : List Text) → write_all w ps ≡ write w (joined ps)
unfolding write write_bytes write_all
write_all-joined w [] = ap (λ b. record w { buf = b }) (sym (append-nil w.buf))
write_all-joined w (p ∷ ps) = write_all-joined (write w p) ps ∙ write_more w p (joined ps)

-- However cd-info's output is cut into writes, the watcher has the whole output, and its channel is
-- closed exactly when a line that a line feed ends has the prefix and a usable value behind it.
pub watcher_fires :
    (prefix : Text) (ps : List Text)
    → ((write_all (new_cd_info_watcher prefix) ps).buf ≡ joined ps)
      × ((write_all (new_cd_info_watcher prefix) ps).found
          ≡ any_of (is_usable prefix) (complete_lines (joined ps)))
unfolding new_cd_info_watcher write
watcher_fires prefix ps = rw (write_all-joined (new_cd_info_watcher prefix) ps) (
  kept_buf (record (new_cd_info_watcher prefix) { buf = joined ps }) (joined ps),
  bytes_found (record (new_cd_info_watcher prefix) { buf = joined ps }) (joined ps) tt,
)
