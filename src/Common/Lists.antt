-- ===== src/Common/Lists.antt =====
-- Lists measured by native numbers, filters by Boolean tests, and predicates by recursion.
use Prim.Native.Nat.{ℕ, suc, ◌+◌}
use mathlib.Core.Path.{◌≡◌, refl, ap}
use mathlib.Core.Bool.{Bool, true, false, not, ◌||◌}
use mathlib.Core.List.{List, [], ◌∷◌, ◌++◌, map, Memᴰ}
use mathlib.Core.List.Memᴰ
use mathlib.Core.Logic.{◌⊎◌, inl, inr}
use native.Mathlib.Omega.{arith}
use disc_echo_dd.Common.Tests.{if◌then◌else◌, Bool-cases}

module _ {ℓ} {A : Type ℓ} where
  abbrev pub length : List A → ℕ
  length [] = 0
  length (x ∷ xs) = suc (length xs)

  pub length-append : (xs ys : List A) → length (xs ++ ys) ≡ length xs + length ys
  length-append [] ys = omega arith
  length-append (x ∷ xs) ys = omega (arith, length-append xs ys)

  -- The elements that pass a test, in their order.
  abbrev pub keep_if : (A → Bool) → List A → List A
  keep_if p [] = []
  keep_if p (x ∷ xs) = if p x then x ∷ keep_if p xs else keep_if p xs

  abbrev pub any_of : (A → Bool) → List A → Bool
  any_of p [] = false
  any_of p (x ∷ xs) = p x || any_of p xs

module _ {ℓ κ} {A : Type ℓ} (P : A → Type κ) where
  abbrev pub All : List A → Type κ
  All [] = Unit
  All (x ∷ xs) = P x × All xs

module _ {ℓ κ} {A : Type ℓ} (P : A → Type κ) where
  pub All-append : (xs ys : List A) → All P xs → All P ys → All P (xs ++ ys)
  All-append [] ys _ hy = hy
  All-append (x ∷ xs) ys (px, hx) hy = (px, All-append xs ys hx hy)

  pub All-mem : (xs : List A) (x : A) → All P xs → Memᴰ x xs → P x
  All-mem [] x _ m = elim m [ ]
  All-mem (y ∷ xs) x (py, h) (Memᴰ.head e) = rw e py
  All-mem (y ∷ xs) x (py, h) (Memᴰ.tail m) = All-mem xs x h m

  pub All-of : (xs : List A) → ((x : A) → P x) → All P xs
  All-of [] h = tt
  All-of (x ∷ xs) h = (h x, All-of xs h)

module _ {ℓ} {A : Type ℓ} where
  pub mem-keep_if :
      (p : A → Bool) (xs : List A) (x : A) → Memᴰ x xs → p x ≡ true → Memᴰ x (keep_if p xs)
  mem-keep_if p [] x m h = elim m [ ]
  mem-keep_if p (y ∷ xs) x (Memᴰ.head e) h = rw (← e) (rw h (Memᴰ.head refl))
  mem-keep_if p (y ∷ xs) x (Memᴰ.tail m) h = elim (Bool-cases (p y)) [
    | inl t ↦ rw t (Memᴰ.tail (mem-keep_if p xs x m h))
    | inr f ↦ rw f (mem-keep_if p xs x m h)
  ]

  pub any_of-mem :
      (p : A → Bool) (xs : List A) (x : A) → Memᴰ x xs → p x ≡ true → any_of p xs ≡ true
  any_of-mem p [] x m h = elim m [ ]
  any_of-mem p (y ∷ xs) x (Memᴰ.head e) h = rw (← e, h)
  any_of-mem p (y ∷ xs) x (Memᴰ.tail m) h = rw (any_of-mem p xs x m h) (or_true (p y))
    where
      or_true : (b : Bool) → (b || true) ≡ true
      or_true true = refl
      or_true false = refl

  pub mem-map {κ} :
      {B : Type κ} (f : A → B) (xs : List A) (x : A) → Memᴰ x xs → Memᴰ (f x) (map f xs)
  mem-map f [] x m = elim m [ ]
  mem-map f (y ∷ xs) x (Memᴰ.head e) = Memᴰ.head (ap f e)
  mem-map f (y ∷ xs) x (Memᴰ.tail m) = Memᴰ.tail (mem-map f xs x m)

  pub keep_if-append :
      (p : A → Bool) (xs ys : List A) → keep_if p (xs ++ ys) ≡ keep_if p xs ++ keep_if p ys
  keep_if-append p [] ys = refl
  keep_if-append p (x ∷ xs) ys = elim (Bool-cases (p x)) [
    | inl t ↦ rw (t, keep_if-append p xs ys)
    | inr f ↦ rw (f, keep_if-append p xs ys)
  ]

  pub keep_if-none : (p : A → Bool) (xs : List A) → All (λ x. p x ≡ false) xs → keep_if p xs ≡ []
  keep_if-none p [] h = refl
  keep_if-none p (x ∷ xs) (h, hs) = rw h (keep_if-none p xs hs)

module _ {ℓ} {A : Type ℓ} where
  -- What a filter keeps was in the list and passes the test.
  pub keep_if_mem :
      (p : A → Bool) (xs : List A) (x : A) → Memᴰ x (keep_if p xs) → Memᴰ x xs × (p x ≡ true)
  keep_if_mem p [] x m = elim m [ ]
  keep_if_mem p (y ∷ xs) x m = elim (Bool-cases (p y)) [
    | inl t ↦ elim (Memᴰ.cases_cons (rw t at m)) [
      | inl e ↦ (Memᴰ.head e, rw e t)
      | inr n ↦ let (n, h) = keep_if_mem p xs x n in (Memᴰ.tail n, h)
    ]
    | inr f ↦ let (n, h) = keep_if_mem p xs x (rw f at m) in (Memᴰ.tail n, h)
  ]

  pub any_of_mem :
      (p : A → Bool) (xs : List A) → any_of p xs ≡ true → (x : A) × Memᴰ x xs × (p x ≡ true)
  any_of_mem p [] h = absurd cc
  any_of_mem p (y ∷ xs) h = elim (Bool-cases (p y)) [
    | inl t ↦ (y, Memᴰ.head refl, t)
    | inr f ↦ let (x, m, t) = any_of_mem p xs (rw f at h) in (x, Memᴰ.tail m, t)
  ]

  -- A test splits a list in two.
  pub length-split :
      (p : A → Bool) (xs : List A)
      → length (keep_if p xs) + length (keep_if (λ x. not (p x)) xs) ≡ length xs
  length-split p [] = refl
  length-split p (x ∷ xs) = elim (Bool-cases (p x)) [
    | inl t ↦ rw t (omega (arith, length-split p xs))
    | inr f ↦ rw f (omega (arith, length-split p xs))
  ]

  pub length-zero : (xs : List A) → length xs ≡ 0 → xs ≡ []
  length-zero [] h = refl
  length-zero (x ∷ xs) h = absurd (omega arith)

  pub mem-split :
      (p : A → Bool) (xs : List A) (x : A)
      → Memᴰ x xs
      → Memᴰ x (keep_if p xs) ⊎ Memᴰ x (keep_if (λ y. not (p y)) xs)
  mem-split p xs x m = elim (Bool-cases (p x)) [
    | inl t ↦ inl (mem-keep_if p xs x m t)
    | inr f ↦ inr (mem-keep_if (λ y. not (p y)) xs x m (rw f))
  ]

module _ {ℓ κ} {A : Type ℓ} (P : A → Type κ) where
  pub All-by_mem : (xs : List A) → ((x : A) → Memᴰ x xs → P x) → All P xs
  All-by_mem [] h = tt
  All-by_mem (x ∷ xs) h = (h x (Memᴰ.head refl), All-by_mem xs (λ y m. h y (Memᴰ.tail m)))

module _ {ℓ κ μ} {A : Type ℓ} (P : A → Type κ) (Q : A → Type μ) where
  pub All-map : (xs : List A) → ((x : A) → P x → Q x) → All P xs → All Q xs
  All-map [] h a = tt
  All-map (x ∷ xs) h (p, a) = (h x p, All-map xs h a)
