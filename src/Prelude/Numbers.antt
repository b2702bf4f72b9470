-- ===== src/Prelude/Numbers.antt =====
-- Decimal text of package strconv, and the bytes of encoding/binary's big-endian integers.
use Prim.Native.Nat.{ℕ, zero, suc, ◌+◌, ◌-◌, ◌*◌, ◌/◌, ◌%◌, ◌^◌, ◌<◌}
use mathlib.Core.Path.{◌≡◌, refl, ap, ◌∙◌}
use mathlib.Core.Logic.{inl, inr}
use mathlib.Core.Bool.{Bool, true, ◌&&◌}
use mathlib.Core.Option.{Option, none, some}
use mathlib.Core.List.{[], ◌∷◌, ◌++◌}
use native.Mathlib.Omega.{arith}
use infrastructure_in_a_box.Prelude.Tests.{ltb, leb, if◌then◌else◌, Bool-cases}
use infrastructure_in_a_box.Prelude.Lists.{length, length-append, all, drop}
use infrastructure_in_a_box.Prelude.Text.{Text, all-append}

abbrev pub is_digit : ℕ → Bool
is_digit c = leb b'0' c && leb c b'9'

-- The value of decimal digits behind those read so far.
unfoldable pub digits_value : ℕ → Text → Option ℕ
digits_value acc [] = some acc
digits_value acc (c ∷ s) =
    let rest = digits_value (acc * 10 + (c - b'0')) s in if is_digit c then rest else none

abbrev pub below : ℕ → Option ℕ → Option ℕ
below limit none = none
below limit (some n) = if ltb n limit then some n else none

-- strconv.ParseUint(s, 10, bits): none for a syntax or a range error.
unfoldable pub parse_uint : ℕ → Text → Option ℕ
unfolding digits_value
parse_uint bits [] = none
parse_uint bits (c ∷ s) = below (2 ^ bits) (digits_value 0 (c ∷ s))

-- The digits of `n`, with fuel for them.
unfoldable pub decimal : ℕ → ℕ → Text
decimal zero n = []
decimal (suc fuel) n =
    let front = decimal fuel (n / 10) in
    if ltb n 10 then (b'0' + n) ∷ [] else front ++ ((b'0' + n % 10) ∷ [])

-- strconv.Itoa, FormatInt and FormatUint in base 10, on a number that is not negative.
unfoldable pub itoa : ℕ → Text
unfolding decimal
itoa n = decimal (n + 1) n

digits_value-snoc :
    (acc d n : ℕ) (s : Text)
    → d < 10
    → digits_value acc s ≡ some n
    → digits_value acc (s ++ ((b'0' + d) ∷ [])) ≡ some (n * 10 + d)
unfolding digits_value
digits_value-snoc acc d n [] h e = ground arith
digits_value-snoc acc d n (c ∷ s) h e = elim (Bool-cases (is_digit c)) [
  | inl digit ↦ rw digit (digits_value-snoc (acc * 10 + (c - b'0')) d n s h (rw digit at e))
  | inr other ↦ ground arith
]

decimal-value : (fuel n : ℕ) → n < fuel → digits_value 0 (decimal fuel n) ≡ some n
unfolding decimal
decimal-value zero n h = absurd (omega arith)
decimal-value (suc fuel) n h = elim (Bool-cases (ltb n 10)) [
  | inl small ↦ rw small (unfold digits_value in (ground arith))
  | inr large ↦ rw large (
      digits_value-snoc 0 (n % 10) (n / 10) (decimal fuel (n / 10)) (omega arith)
        (decimal-value fuel (n / 10) (ground arith))
      ∙ ap some (omega arith))
]

decimal-digits : (fuel n : ℕ) → all is_digit (decimal fuel n) ≡ true
unfolding decimal
decimal-digits zero n = refl
decimal-digits (suc fuel) n = elim (Bool-cases (ltb n 10)) [
  | inl small ↦ rw small (ground arith)
  | inr large ↦
      rw large (
        all-append is_digit (decimal fuel (n / 10)) _ (decimal-digits fuel (n / 10)) (ground arith))
]

pub itoa-digits : (n : ℕ) → all is_digit (itoa n) ≡ true
unfolding itoa
itoa-digits n = decimal-digits (n + 1) n

decimal-nonempty : (fuel n : ℕ) → n < fuel → 0 < length (decimal fuel n)
unfolding decimal
decimal-nonempty zero n h = absurd (omega arith)
decimal-nonempty (suc fuel) n h = elim (Bool-cases (ltb n 10)) [
  | inl small ↦ rw small (omega arith)
  | inr large ↦
      rw large (omega (arith, length-append (decimal fuel (n / 10)) ((b'0' + n % 10) ∷ [])))
]

pub itoa-nonempty : (n : ℕ) → 0 < length (itoa n)
unfolding itoa
itoa-nonempty n = decimal-nonempty (n + 1) n (omega arith)

-- What is printed in decimal is read back, where it fits the width.
pub parse_uint-itoa : (bits n : ℕ) → n < 2 ^ bits → parse_uint bits (itoa n) ≡ some n
unfolding parse_uint itoa
parse_uint-itoa bits n h = go (itoa n) (itoa-nonempty n) (decimal-value (n + 1) n (omega arith))
  where
    go : (s : Text) → 0 < length s → digits_value 0 s ≡ some n → parse_uint bits s ≡ some n
    go [] p e = absurd (omega arith)
    go (c ∷ s) p e = rw e (ground arith)

digits_value-digits : (acc n : ℕ) (s : Text) → digits_value acc s ≡ some n → all is_digit s ≡ true
unfolding digits_value
digits_value-digits acc n [] e = refl
digits_value-digits acc n (c ∷ s) e = elim (Bool-cases (is_digit c)) [
  | inl digit ↦ rw digit (digits_value-digits (acc * 10 + (c - b'0')) n s (rw digit at e))
  | inr other ↦ ground arith
]

below-some : (limit n : ℕ) (o : Option ℕ) → below limit o ≡ some n → (o ≡ some n) × (n < limit)
below-some limit n none e = cc
below-some limit n (some m) e = ground arith

-- What is read as a number consists of digits, and fits the width.
pub parse_uint-some :
    (bits n : ℕ) (s : Text) → parse_uint bits s ≡ some n → (all is_digit s ≡ true) × (n < 2 ^ bits)
unfolding parse_uint
parse_uint-some bits n [] e = cc
parse_uint-some bits n (c ∷ s) e =
    let (value, fits) = below-some (2 ^ bits) n (digits_value 0 (c ∷ s)) e in
    (digits_value-digits 0 n (c ∷ s) value, fits)

-- binary.BigEndian.Uint16, on two bytes or more.
unfoldable pub uint16_at : Text → ℕ
uint16_at (a ∷ b ∷ rest) = a * 256 + b
uint16_at _ = 0

-- binary.BigEndian.PutUint16.
unfoldable pub put_uint16 : ℕ → Text
put_uint16 n = (n / 256 % 256) ∷ (n % 256) ∷ []

-- binary.BigEndian.PutUint32.
unfoldable pub put_uint32 : ℕ → Text
put_uint32 n = (n / 16777216 % 256) ∷ (n / 65536 % 256) ∷ (n / 256 % 256) ∷ (n % 256) ∷ []

pub uint16_at-put_uint16 : (n : ℕ) (rest : Text) → n < 65536 → uint16_at (put_uint16 n ++ rest) ≡ n
unfolding uint16_at put_uint16
uint16_at-put_uint16 n rest h = omega arith

-- binary.BigEndian.Uint32, on four bytes or more.
unfoldable pub uint32_at : Text → ℕ
uint32_at (a ∷ b ∷ c ∷ d ∷ rest) = a * 16777216 + b * 65536 + c * 256 + d
uint32_at _ = 0

pub uint32_at-put_uint32 : (n : ℕ) (rest : Text) → n < 2 ^ 32 → uint32_at (put_uint32 n ++ rest) ≡ n
unfolding uint32_at put_uint32
uint32_at-put_uint32 n rest h = omega arith

pub drop-put_uint32 :
    (n k : ℕ) (rest : Text) → drop (suc (suc (suc (suc k)))) (put_uint32 n ++ rest) ≡ drop k rest
unfolding put_uint32
drop-put_uint32 n k rest = refl
