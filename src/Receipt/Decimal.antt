-- ===== src/Receipt/Decimal.antt =====
-- `str` of a natural number, as the f-strings of src/py-inference/src/inference/receipt.py use it,
-- and a reader of its digits.
use openmodel.Base.{
  ℕ, zero, suc, ◌+◌, ◌-◌, ◌*◌, ◌/◌, ◌%◌, ◌<◌, ◌≡◌, refl, inl, inr, Bool, true, false, ◌&&◌, [], ◌∷◌,
  ◌++◌, Option, none, some, arith, if◌then◌else◌, ltb, leb, Bool-cases,
}
use openmodel.Base.Text.{Text}

-- The digits of `n` before `out`, with fuel above `n`.
digits : ℕ → ℕ → Text → Text
digits zero n out = out
digits (suc f) n out =
    let more = digits f (n / 10) ((b'0' + n % 10) ∷ out) in
    if ltb n 10 then (b'0' + n) ∷ out else more

unfoldable pub decimal : ℕ → Text
unfolding digits
decimal n = digits (suc n) n []

abbrev pub is_digit : ℕ → Bool
is_digit c = leb b'0' c && leb c b'9'

-- The digits at the head of a text, and what follows them.
read_digits : ℕ → Text → ℕ × Text
read_digits n [] = (n, [])
read_digits n (c ∷ s) = elim (is_digit c) [
  | true ↦ read_digits (n * 10 + (c - b'0')) s
  | false ↦ (n, c ∷ s)
]

pub read_decimal : Text → Option (ℕ × Text)
unfolding read_digits
read_decimal [] = none
read_decimal (c ∷ s) = if is_digit c then some (read_digits 0 (c ∷ s)) else none

-- What follows is no digit.
abbrev pub Stops : Text → Type 0
Stops [] = Unit
Stops (c ∷ s) = is_digit c ≡ false

read_digit :
    (n d : ℕ) (s : Text) → d < 10 → read_digits n ((b'0' + d) ∷ s) ≡ read_digits (n * 10 + d) s
unfolding read_digits
read_digit n d s h = ground arith

digits-append : (f n : ℕ) (out rest : Text) → digits f n out ++ rest ≡ digits f n (out ++ rest)
unfolding digits
digits-append zero n out rest = refl
digits-append (suc f) n out rest =
    ground (arith, digits-append f (n / 10) ((b'0' + n % 10) ∷ out) rest)

read_digits-digits :
    (f n : ℕ) (out : Text) → n < f → read_digits 0 (digits f n out) ≡ read_digits n out
unfolding digits
read_digits-digits zero n out h = absurd (omega arith)
read_digits-digits (suc f) n out h = elim (Bool-cases (ltb n 10)) [
  | inl small ↦ rw small (ground (arith, read_digit 0 n out))
  | inr large ↦
      rw
        (
          large,
          read_digits-digits f (n / 10) ((b'0' + n % 10) ∷ out) (ground arith),
          read_digit (n / 10) (n % 10) out (omega arith),
        )
        (ground arith)
]

read_digits-Stops : (n : ℕ) (s : Text) → Stops s → read_digits n s ≡ (n, s)
unfolding read_digits
read_digits-Stops n [] h = refl
read_digits-Stops n (c ∷ s) h = ground arith

abbrev OpensDigit : Text → Type 0
OpensDigit [] = ⊥
OpensDigit (c ∷ s) = is_digit c ≡ true

digits-OpensDigit : (f n : ℕ) (out : Text) → n < f → OpensDigit (digits f n out)
unfolding digits
digits-OpensDigit zero n out h = absurd (omega arith)
digits-OpensDigit (suc zero) n out h = ground arith
digits-OpensDigit (suc (suc f)) n out h = elim (Bool-cases (ltb n 10)) [
  | inl small ↦ rw small (ground arith)
  | inr large ↦ rw large (digits-OpensDigit (suc f) (n / 10) ((b'0' + n % 10) ∷ out) (ground arith))
]

read_decimal-OpensDigit : (s : Text) → OpensDigit s → read_decimal s ≡ some (read_digits 0 s)
unfolding read_decimal
read_decimal-OpensDigit [] h = absurd h
read_decimal-OpensDigit (c ∷ s) h = rw h refl

-- Decimal digits are read back, if what follows is no digit.
pub read_decimal-decimal :
    (n : ℕ) (rest : Text) → Stops rest → read_decimal (decimal n ++ rest) ≡ some (n, rest)
unfolding decimal
read_decimal-decimal n rest h =
    rw
      (
        digits-append (suc n) n [] rest,
        read_decimal-OpensDigit (digits (suc n) n rest)
            (digits-OpensDigit (suc n) n rest (omega arith)),
        read_digits-digits (suc n) n rest (omega arith),
        read_digits-Stops n rest h,
      )
      refl
