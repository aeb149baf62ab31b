-- ===== src/Common/Numbers.antt =====
-- Package strconv on decimal texts and truth values: Itoa, Atoi and ParseBool.
use Prim.Native.Nat.{ℕ, zero, suc, ◌+◌, ◌-◌, ◌*◌, ◌/◌, ◌%◌, ◌^◌, ◌≤◌, ◌<◌}
use mathlib.Core.Path.{◌≡◌, refl}
use mathlib.Core.Logic.{inl, inr}
use mathlib.Core.Bool.{Bool, true, false, ◌&&◌}
use mathlib.Core.List.{[], ◌∷◌}
use mathlib.Core.Option.{Option, none, some}
use native.Mathlib.Omega.{arith}
use disc_echo_dd.Common.Tests.{ltb, leb, ◌==◌, if◌then◌else◌, Bool-cases}
use disc_echo_dd.Common.Lists.{any_of}
use disc_echo_dd.Common.Texts.{Text, codes, text_eq}
use disc_echo_dd.Common.Ints.{ℤ, pos, negsuc}

-- The digits of a number before `out`; a round divides by ten, so that `n + 1` rounds are enough.
unfoldable pub emit : ℕ → ℕ → Text → Text
emit zero n out = out
emit (suc k) n out = elim (ltb n 10) [
  | true ↦ (b'0' + n) ∷ out
  | false ↦ emit k (n / 10) ((b'0' + n % 10) ∷ out)
]

unfoldable pub format : ℕ → Text
unfolding emit
format n = emit (suc n) n []

-- strconv.Itoa
unfoldable pub itoa : ℤ → Text
unfolding format
itoa (pos n) = format n
itoa (negsuc n) = b'-' ∷ format (suc n)

unfoldable pub scan : Text → ℕ → Option ℕ
scan [] n = some n
scan (c ∷ s) n =
    let rest = scan s (n * 10 + (c - b'0')) in if leb b'0' c && leb c b'9' then rest else none

unfoldable pub magnitude : Text → Option ℕ
unfolding scan
magnitude [] = none
magnitude (c ∷ s) = scan (c ∷ s) 0

unfoldable pub max_int : ℕ
max_int = 2 ^ 63 - 1

abbrev pub negative : ℕ → ℤ
negative zero = pos 0
negative (suc n) = negsuc n

-- A number in the range of a 64-bit integer.
unfoldable pub in_range : Bool → Option ℕ → Option ℤ
unfolding max_int
in_range minus none = none
in_range false (some n) = if leb n max_int then some (pos n) else none
in_range true (some n) = if leb n (suc max_int) then some (negative n) else none

-- strconv.Atoi; an error is `none`.
unfoldable pub atoi : Text → Option ℤ
unfolding magnitude in_range
atoi [] = none
atoi (c ∷ s) =
    if c == b'-'
    then in_range true (magnitude s)
    else if c == b'+'
    then in_range false (magnitude s)
    else in_range false (magnitude (c ∷ s))

-- strconv.ParseBool; an error is `none`.
unfoldable pub parse_bool : Text → Option Bool
unfolding text_eq
parse_bool s =
    if any_of (text_eq s)
      (codes "1" ∷ codes "t" ∷ codes "T" ∷ codes "TRUE" ∷ codes "true" ∷ codes "True" ∷ [])
    then some true
    else if any_of (text_eq s)
        (codes "0" ∷ codes "f" ∷ codes "F" ∷ codes "FALSE" ∷ codes "false" ∷ codes "False" ∷ [])
    then some false
    else none

scan_digit :
    (d : ℕ) (out : Text) (n : ℕ) → d < 10 → scan ((b'0' + d) ∷ out) n ≡ scan out (n * 10 + d)
unfolding scan
scan_digit d out n h = ground arith

module _ (k n : ℕ) (out : Text) where
  emit_last : ltb n 10 ≡ true → emit (suc k) n out ≡ (b'0' + n) ∷ out
  unfolding emit
  emit_last t = rw (t, emit) refl

  emit_more : ltb n 10 ≡ false → emit (suc k) n out ≡ emit k (n / 10) ((b'0' + n % 10) ∷ out)
  unfolding emit
  emit_more f = rw (f, emit) refl

-- Reading back the digits gives the number.
scan-emit : (k n : ℕ) (out : Text) → n < k → scan (emit k n out) 0 ≡ scan out n
unfolding emit
scan-emit zero n out h = absurd (omega arith)
scan-emit (suc k) n out h = elim (Bool-cases (ltb n 10)) [
  | inl t ↦
      let start : 0 * 10 + n ≡ n = omega arith in
      rw (emit_last k n out t, scan_digit n out 0 (ground arith), start)
  | inr f ↦
      let small : n / 10 < k = ground arith in
      let whole : n / 10 * 10 + n % 10 ≡ n = omega arith in
      rw
        (
          emit_more k n out f,
          scan-emit k (n / 10) ((b'0' + n % 10) ∷ out) small,
          scan_digit (n % 10) out (n / 10) (omega arith),
          whole,
        )
        refl
]

-- The text of a number starts with a digit.
emit_starts :
    (k n : ℕ) (out : Text) → n < k → (c : ℕ) × (s : Text) × (emit k n out ≡ c ∷ s) × (b'0' ≤ c)
unfolding emit
emit_starts zero n out h = absurd (omega arith)
emit_starts (suc k) n out h = elim (Bool-cases (ltb n 10)) [
  | inl t ↦ (b'0' + n, out, emit_last k n out t, omega arith)
  | inr f ↦
      let small : n / 10 < k = ground arith in
      let (c, s, e, d) = emit_starts k (n / 10) ((b'0' + n % 10) ∷ out) small in
      (c, s, rw (emit_more k n out f) e, d)
]

atoi_unsigned :
    (c : ℕ) (s : Text) (n : ℕ)
    → b'0' ≤ c
    → scan (c ∷ s) 0 ≡ some n
    → n ≤ max_int
    → atoi (c ∷ s) ≡ some (pos n)
unfolding atoi magnitude in_range
atoi_unsigned c s n d e h =
    let minus : (c == b'-') ≡ false = ground arith in
    let plus : (c == b'+') ≡ false = ground arith in
    let fits : leb n max_int ≡ true = ground arith in rw (minus, plus, e, fits)

-- Atoi reads back what Itoa writes.
pub atoi-itoa : (n : ℕ) → n ≤ max_int → atoi (itoa (pos n)) ≡ some (pos n)
unfolding itoa format scan
atoi-itoa n h =
    let (c, s, e, d) = emit_starts (suc n) n [] (omega arith) in
    let read : scan (c ∷ s) 0 ≡ some n = rw e at (read_back n) in
    rw e (atoi_unsigned c s n d read h)
  where
    read_back : (n : ℕ) → scan (emit (suc n) n []) 0 ≡ some n
    read_back n = scan-emit (suc n) n [] (omega arith)

test_itoa : itoa (negsuc 119) ≡ codes "-120"
unfolding itoa format emit
test_itoa = refl

test_atoi : atoi (codes "-9223372036854775808") ≡ some (negsuc 9223372036854775807)
unfolding atoi magnitude in_range max_int scan
test_atoi = refl
