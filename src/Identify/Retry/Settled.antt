-- ===== src/Identify/Retry/Settled.antt =====
-- What a retry loop of daemon/identify/classify.go settles on.
use disc_echo_dd.Common.{
  subst, ap, sym, ◌∙◌, ℕ, zero, suc, ◌+◌, ◌≤◌, ◌<◌, ◌≡◌, ◌⊎◌, inl, inr, Bool, true, false, none,
  Result, arith, Bool-cases,
}
use disc_echo_dd.Identify.Retry.{Attempt, retry}

-- A turn that does not end the loop: no usable answer, and the context lives on.
pub record Passed {ℓ} {A : Type ℓ} (good : Result A → Bool) (a : Attempt A) : Type ℓ where
  pub unusable : good a.result ≡ false
  pub alive : a.over ≡ none
  pub waited : a.interrupted ≡ none

module _ {ℓ} {A : Type ℓ} (good : Result A → Bool) (at : ℕ → Attempt A) where
  retry_now : (left k : ℕ) → good (at k).result ≡ true → retry good at left k ≡ (at k).result
  unfolding retry
  retry_now zero k g = rw g
  retry_now (suc left) k g = rw g

  retry_last : (k : ℕ) → (at k).over ≡ none → retry good at 0 k ≡ (at k).result
  unfolding retry
  retry_last k o = elim (Bool-cases (good (at k).result)) [ inl t ↦ rw t | inr f ↦ rw (f, o) ]

  retry_next :
      (left k : ℕ) → Passed good (at k) → retry good at (suc left) k ≡ retry good at left (suc k)
  unfolding retry
  retry_next left k p = rw (p.unusable, p.alive, p.waited)

  -- After `n` turns that pass, the loop returns the answer of the next one, where that is usable or
  -- the last of the schedule with the context alive.
  retry_settles :
      (n left k : ℕ)
      → n ≤ left
      → ((i : ℕ) → i < n → Passed good (at (k + i)))
      → (good (at (k + n)).result ≡ true) ⊎ ((n ≡ left) × ((at (k + n)).over ≡ none))
      → retry good at left k ≡ (at (k + n)).result
  retry_settles zero left k le p (inl g) =
      let same : k + 0 ≡ k = omega arith in rw same (retry_now left k (rw (← same) g))
  retry_settles zero left k le p (inr (e, o)) =
      let same : k + 0 ≡ k = omega arith in rw (same, ← e) (retry_last k (rw (← same) o))
  retry_settles (suc n) zero k le p e = absurd omega arith
  retry_settles (suc n) (suc left) k le p e =
      let same : k + suc n ≡ suc k + n = omega arith in
      let here : k + 0 ≡ k = omega arith in
      rw (
        retry_next left k (subst (λ j. Passed good (at j)) here (p 0 (omega arith))),
        retry_settles n left (suc k) (omega arith)
            (λ i lt. subst (λ j. Passed good (at j)) (shift i) (p (suc i) (omega arith)))
            (elim e [
              | inl g ↦ inl (rw (← same) g)
              | inr (l, o) ↦ inr (omega arith, rw (← same) o)
            ]),
        same,
      )
    where
      shift : (i : ℕ) → k + suc i ≡ suc k + i
      shift i = omega arith

  pub retry_settles_first :
      (n left : ℕ)
      → n ≤ left
      → ((i : ℕ) → i < n → Passed good (at i))
      → good (at n).result ≡ true
      → retry good at left 0 ≡ (at n).result
  retry_settles_first n left le p g =
      retry_settles n left 0 le (λ i lt. subst (λ j. Passed good (at j)) (from_zero i) (p i lt))
        (inl (subst (λ j. good (at j).result ≡ true) (from_zero n) g))
      ∙ ap (λ j. (at j).result) (sym (from_zero n))
    where
      from_zero : (i : ℕ) → i ≡ 0 + i
      from_zero i = omega arith
