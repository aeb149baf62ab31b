-- ===== src/State/Store/Queries/Logs.antt =====
-- The log queries of daemon/state/store.go, and their ends.
use disc_echo_dd.Common.{
  ℕ, zero, suc, ◌+◌, ◌≡◌, refl, ap, sym, ◌∙◌, List, [], ◌∷◌, ◌++◌, Text, keep_if, length, ◌⊎◌, inl,
  inr, append_assoc, ℤ, arith,
}
use disc_echo_dd.State.Rows.{Db, LogLine}
use disc_echo_dd.State.Store.Queries.{take, skip, reverse_onto, of_job, tail_log_lines, tail_limit}

module _ {ℓ} {A : Type ℓ} where
  take-skip : (n : ℕ) (xs : List A) → take n xs ++ skip n xs ≡ xs
  unfolding take skip
  take-skip zero xs = refl
  take-skip (suc n) [] = refl
  take-skip (suc n) (x ∷ xs) = ap (λ t. x ∷ t) (take-skip n xs)

  -- As many rows as are asked for, or all.
  take_full : (n : ℕ) (xs : List A) → (length (take n xs) ≡ n) ⊎ (take n xs ≡ xs)
  unfolding take
  take_full zero xs = inl refl
  take_full (suc n) [] = inr refl
  take_full (suc n) (x ∷ xs) = elim (take_full n xs) [
    | inl e ↦ inl (omega (arith, e))
    | inr e ↦ inr (ap (λ t. x ∷ t) e)
  ]

  length-reverse_onto : (xs acc : List A) → length (reverse_onto xs acc) ≡ length xs + length acc
  unfolding reverse_onto
  length-reverse_onto [] acc = omega arith
  length-reverse_onto (x ∷ xs) acc = omega (arith, length-reverse_onto xs (x ∷ acc))

  reverse_onto-append : (xs acc : List A) → reverse_onto xs acc ≡ reverse_onto xs [] ++ acc
  unfolding reverse_onto
  reverse_onto-append [] acc = refl
  reverse_onto-append (x ∷ xs) acc =
      reverse_onto-append xs (x ∷ acc)
      ∙ sym (append_assoc (reverse_onto xs []) (x ∷ []) acc)
      ∙ ap (λ t. t ++ acc) (sym (reverse_onto-append xs (x ∷ [])))

  reverse_onto-onto :
      (xs ys acc : List A) → reverse_onto (xs ++ ys) acc ≡ reverse_onto ys (reverse_onto xs acc)
  unfolding reverse_onto
  reverse_onto-onto [] ys acc = refl
  reverse_onto-onto (x ∷ xs) ys acc = reverse_onto-onto xs ys (x ∷ acc)

  reverse_twice : (xs acc : List A) → reverse_onto (reverse_onto xs acc) [] ≡ reverse_onto acc xs
  unfolding reverse_onto
  reverse_twice [] acc = refl
  reverse_twice (x ∷ xs) acc = reverse_twice xs (x ∷ acc)

  -- Reversing the first rows of the reverse gives the last rows.
  last_rows :
      (n : ℕ) (xs : List A)
      → (older : List A) × (older ++ reverse_onto (take n (reverse_onto xs [])) [] ≡ xs)
  unfolding reverse_onto
  last_rows n xs =
      let back = reverse_onto xs [] in
      (
        reverse_onto (skip n back) [],
        sym (reverse_onto-append (skip n back) (reverse_onto (take n back) []))
            ∙ sym (reverse_onto-onto (take n back) (skip n back) [])
            ∙ ap (λ t. reverse_onto t []) (take-skip n back)
            ∙ reverse_twice xs [],
      )

-- A tail is the end of the job's lines, in their order, and has as many lines as asked for unless it is
-- all of them.
pub tail_log_lines_last :
    (id : Text) (n : ℤ) (db : Db)
    → ((older : List LogLine) × (older ++ tail_log_lines id n db ≡ keep_if (of_job id) db.logs))
      × ((length (tail_log_lines id n db) ≡ tail_limit n)
          ⊎ (tail_log_lines id n db ≡ keep_if (of_job id) db.logs))
unfolding tail_log_lines
tail_log_lines_last id n db =
    (last_rows (tail_limit n) rows, full (take_full (tail_limit n) (reverse_onto rows [])))
  where
    rows : List LogLine
    rows = keep_if (of_job id) db.logs

    back : List LogLine
    back = take (tail_limit n) (reverse_onto rows [])

    full :
        (length back ≡ tail_limit n) ⊎ (back ≡ reverse_onto rows [])
        → (length (reverse_onto back []) ≡ tail_limit n) ⊎ (reverse_onto back [] ≡ rows)
    full (inl e) = inl (omega (arith, length-reverse_onto back [], e))
    full (inr e) = inr (ap (λ t. reverse_onto t []) e ∙ reverse_twice rows [])
