-- ===== src/Base/Decimal.antt =====
-- Decimal numbers as `%d` prints them, and a reader of them.
use Prim.Native.Nat.{ℕ, zero, suc, ◌+◌, ◌-◌, ◌*◌, ◌/◌, ◌%◌, ◌≤◌, ◌<◌, ◌^◌}
use mathlib.Core.Path.{◌≡◌, refl, ◌∙◌, ap}
use mathlib.Core.Logic.{inl, inr}
use mathlib.Core.Bool.{Bool, ◌&&◌}
use mathlib.Core.List.{List, [], ◌∷◌, ◌++◌}
use mudit_m.Base.Lists.{length}
use native.Mathlib.Omega.{arith}
use mudit_m.Base.Tests.{ltb, leb, if◌then◌else◌, Bool-cases, ltb→lt}

-- The digits of a number before a text. A number has fewer digits than its fuel.
unfoldable pub digits_before : ℕ → ℕ → List ℕ → List ℕ
digits_before zero n text = text
digits_before (suc fuel) n text =
    let rest = digits_before fuel (n / 10) ((b'0' + n % 10) ∷ text) in
    if ltb n 10 then (b'0' + n) ∷ text else rest

abbrev pub decimal : ℕ → List ℕ
decimal n = digits_before (suc n) n []

abbrev pub is_digit : ℕ → Bool
is_digit c = leb b'0' c && leb c b'9'

-- The number that the first digits of a text spell behind `n`, and the text behind them.
abbrev pub read_number : ℕ → List ℕ → ℕ × List ℕ
read_number n [] = (n, [])
read_number n (c ∷ text) =
    let rest = read_number (n * 10 + (c - b'0')) text in if is_digit c then rest else (n, c ∷ text)

-- The last digit and those before it.
pub digits_before_one :
    (fuel n : ℕ) (text : List ℕ) → n < 10 → digits_before (suc fuel) n text ≡ (b'0' + n) ∷ text
unfolding digits_before
digits_before_one fuel n text h = ground arith

pub digits_before_more :
    (fuel n : ℕ) (text : List ℕ)
    → 10 ≤ n
    → digits_before (suc fuel) n text ≡ digits_before fuel (n / 10) ((b'0' + n % 10) ∷ text)
unfolding digits_before
digits_before_more fuel n text h = ground arith

digits_before-append :
    (fuel n : ℕ) (text more : List ℕ)
    → digits_before fuel n text ++ more ≡ digits_before fuel n (text ++ more)
unfolding digits_before
digits_before-append zero n text more = refl
digits_before-append (suc fuel) n text more = elim (Bool-cases (ltb n 10)) [
  | inl small ↦ rw small refl
  | inr large ↦ rw large (digits_before-append fuel (n / 10) ((b'0' + n % 10) ∷ text) more)
]

read_number-digit :
    (n d : ℕ) (text : List ℕ)
    → d < 10
    → read_number n ((b'0' + d) ∷ text) ≡ read_number (n * 10 + d) text
read_number-digit n d text h = ground arith

read_number-digits_before :
    (fuel n : ℕ) (text : List ℕ)
    → n < fuel
    → read_number 0 (digits_before fuel n text) ≡ read_number n text
unfolding digits_before
read_number-digits_before zero n text h = absurd (omega arith)
read_number-digits_before (suc fuel) n text h = elim (Bool-cases (ltb n 10)) [
  | inl small ↦
      rw small
        (read_number-digit 0 n text (ground arith) ∙ ap (λ m. read_number m text) (omega arith))
  | inr large ↦ rw large (
      read_number-digits_before fuel (n / 10) ((b'0' + n % 10) ∷ text) (ground arith)
      ∙ read_number-digit (n / 10) (n % 10) text (omega arith)
      ∙ ap (λ m. read_number m text) (omega arith))
]

-- A number that was printed is read back, up to what follows.
pub read_number-decimal :
    (n : ℕ) (text : List ℕ) → read_number 0 (decimal n ++ text) ≡ read_number n text
read_number-decimal n text =
    ap (λ t. read_number 0 t) (digits_before-append (suc n) n [] text)
    ∙ read_number-digits_before (suc n) n text (omega arith)

-- The first number with more than `room` digits.
abbrev pub tenfold : ℕ → ℕ
tenfold zero = 1
tenfold (suc room) = 10 * tenfold room

pub length-digits_before :
    (room fuel pid : ℕ) (digits : List ℕ)
    → pid < tenfold (suc room)
    → pid < fuel
    → length (digits_before fuel pid digits) ≤ suc room + length digits
length-digits_before room zero pid digits h k = absurd (omega arith)
length-digits_before zero (suc fuel) pid digits h k =
    rw (digits_before_one fuel pid digits (omega arith)) (omega arith)
length-digits_before (suc room) (suc fuel) pid digits h k = elim (Bool-cases (ltb pid 10)) [
  | inl small ↦ rw (digits_before_one fuel pid digits (ltb→lt pid 10 small)) (omega arith)
  | inr large ↦ rw (digits_before_more fuel pid digits (ground arith)) (
      omega (
        arith,
        length-digits_before room fuel (pid / 10) ((b'0' + pid % 10) ∷ digits) (omega arith)
            (ground arith),
      ))
]

-- A port has at most five digits.
pub length-decimal_port : (port : ℕ) → port < 2 ^ 16 → length (decimal port) ≤ 5
length-decimal_port port h =
    omega (arith, length-digits_before 4 (suc port) port [] (omega arith) (omega arith))
