-- ===== src/State/Store/Table.antt =====
-- SELECT, UPDATE … WHERE and COUNT over a table, as daemon/state/store.go uses them.
use mathlib.Core.Path.{fun_ext}
use disc_echo_dd.Common.{
  ℕ, zero, suc, ◌≡◌, refl, ap, Bool, true, false, List, [], ◌∷◌, ◌++◌, Option, none, some, All,
  Memᴰ, Bool-cases, if◌then◌else◌, Result, ok, err, not_found, inl, inr,
}

module _ {ℓ} {A : Type ℓ} where
  -- The first row that a test accepts; by a primary key there is at most one.
  unfoldable pub select : (A → Bool) → List A → Option A
  select p [] = none
  select p (x ∷ xs) = if p x then some x else select p xs

  abbrev pub update_row : (A → Bool) → (A → A) → A → A
  update_row p f x = if p x then f x else x

  unfoldable pub update_where : (A → Bool) → (A → A) → List A → List A
  update_where p f [] = []
  update_where p f (x ∷ xs) = update_row p f x ∷ update_where p f xs

  -- RowsAffected and COUNT(*).
  unfoldable pub count_where : (A → Bool) → List A → ℕ
  count_where p [] = 0
  count_where p (x ∷ xs) = let n = count_where p xs in if p x then suc n else n

  abbrev pub map_option : (A → A) → Option A → Option A
  map_option f none = none
  map_option f (some x) = some (f x)

-- `if n == 0 { return ErrNotFound }`
abbrev pub affected : ℕ → Result (Unit {0})
affected zero = err not_found
affected (suc n) = ok tt

module _ {ℓ} {A : Type ℓ} where
  -- A row found by a key that the update leaves alone is the old row, updated if the WHERE fits it.
  pub select-update_where :
      (q p : A → Bool) (f : A → A) (xs : List A)
      → ((x : A) → q (f x) ≡ q x)
      → select q (update_where p f xs) ≡ map_option (update_row p f) (select q xs)
  unfolding select update_where
  select-update_where q p f [] h = refl
  select-update_where q p f (x ∷ xs) h = elim (Bool-cases (p x)) [
    | inl t ↦ elim (Bool-cases (q x)) [
      | inl u ↦ rw (t, h x, u, t)
      | inr u ↦ rw (t, h x, u) (select-update_where q p f xs h)
    ]
    | inr t ↦ elim (Bool-cases (q x)) [
      | inl u ↦ rw (t, u, t)
      | inr u ↦ rw (t, u) (select-update_where q p f xs h)
    ]
  ]

  pub All-update_where {κ} :
      (Q : A → Type κ) (p : A → Bool) (f : A → A) (xs : List A)
      → ((x : A) → Q (update_row p f x))
      → All Q (update_where p f xs)
  unfolding update_where
  All-update_where Q p f [] h = tt
  All-update_where Q p f (x ∷ xs) h = (h x, All-update_where Q p f xs h)

  pub select-true : (p : A → Bool) (xs : List A) {x : A} → select p xs ≡ some x → p x ≡ true
  unfolding select
  select-true p [] e = cc
  select-true p (y ∷ xs) {x} e = elim (Bool-cases (p y)) [
    | inl t ↦ let h : some y ≡ some x = rw t at e in let same : y ≡ x = cc (h) in rw same at t
    | inr f ↦ select-true p xs (rw f at e)
  ]

  pub select_mem : (p : A → Bool) (xs : List A) {x : A} → select p xs ≡ some x → Memᴰ x xs
  unfolding select
  select_mem p [] e = absurd cc
  select_mem p (y ∷ xs) {x} e = elim (Bool-cases (p y)) [
    | inl t ↦ let h : some y ≡ some x = rw t at e in let same : x ≡ y = cc (h) in Memᴰ.head same
    | inr f ↦ Memᴰ.tail (select_mem p xs (rw f at e))
  ]

  -- A row that is found was counted.
  pub affected_found :
      (p : A → Bool) (xs : List A) {x : A}
      → select p xs ≡ some x
      → affected (count_where p xs) ≡ ok tt
  unfolding select count_where
  affected_found p [] e = cc
  affected_found p (y ∷ xs) {x} e = elim (Bool-cases (p y)) [
    | inl t ↦ rw t
    | inr f ↦ rw f (affected_found p xs (rw f at e))
  ]

  -- Where no row fits, none is counted and the update changes nothing.
  pub unaffected :
      (p : A → Bool) (f : A → A) (xs : List A)
      → select p xs ≡ none
      → (affected (count_where p xs) ≡ err not_found) × (update_where p f xs ≡ xs)
  unfolding select count_where update_where
  unaffected p f [] e = (refl, refl)
  unaffected p f (y ∷ xs) e = elim (Bool-cases (p y)) [
    | inl t ↦ absurd (let h = rw t at e in cc (h))
    | inr n ↦ let (a, b) = unaffected p f xs (rw n at e) in (rw n a, rw (n, b))
  ]

  pub count_where-none :
      (p : A → Bool) (xs : List A) → All (λ x. p x ≡ false) xs → count_where p xs ≡ 0
  unfolding count_where
  count_where-none p [] h = refl
  count_where-none p (x ∷ xs) (h, hs) = rw (h, count_where-none p xs hs)

  pub select_ext :
      (p q : A → Bool) (xs : List A) → ((x : A) → p x ≡ q x) → select p xs ≡ select q xs
  select_ext p q xs h = ap (λ r. select r xs) (fun_ext h)

  -- A row that is found stays found when rows are added.
  pub select_append :
      (p : A → Bool) (xs ys : List A) {x : A} → select p xs ≡ some x → select p (xs ++ ys) ≡ some x
  unfolding select
  select_append p [] ys e = cc
  select_append p (z ∷ xs) ys {x} e = elim (Bool-cases (p z)) [
    | inl t ↦ rw t (rw t at e)
    | inr f ↦ rw f (select_append p xs ys (rw f at e))
  ]
