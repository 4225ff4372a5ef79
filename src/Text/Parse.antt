-- ===== src/Text/Parse.antt =====
-- `str::parse` at an unsigned type, and that it reads what `format!` writes.

use sto.Prelude.{
  ℕ, zero, suc, ◌+◌, ◌-◌, ◌*◌, ◌/◌, ◌%◌, ◌≤◌, ◌<◌, ◌≡◌, refl, ap, ◌∙◌, Bool, Option, none, some,
  List, [], ◌∷◌, arith, ltb, leb, ltb→lt, ◌&&◌, ◌==◌, if◌then◌else◌, All, All-map, Bool-cases, inl,
  inr,
}
use sto.Text.{is_whitespace, digits_onto, decimal}
use sto.Text.Split.{IsInWord, IsWord}

abbrev pub is_digit : ℕ → Bool
is_digit c = leb 48 c && leb c 57

-- The digits of a number below `bound`, behind those that came to `acc`.
unfoldable pub parse_digits : ℕ → ℕ → List ℕ → Option ℕ
parse_digits bound acc [] = some acc
parse_digits bound acc (c ∷ cs) =
    let acc' = acc * 10 + (c - 48) in
    let rest = parse_digits bound acc' cs in
    if is_digit c then if ltb acc' bound then rest else none else none

-- `s.parse::<u32>()` for the bound 2 ^ 32: a sign may stand in front, no number is an error.
unfoldable pub parse : ℕ → List ℕ → Option ℕ
unfolding parse_digits
parse bound [] = none
parse bound (c ∷ []) = parse_digits bound 0 (c ∷ [])
parse bound (c ∷ d ∷ cs) =
    if c == 43 then parse_digits bound 0 (d ∷ cs) else parse_digits bound 0 (c ∷ d ∷ cs)

abbrev IsDigit : ℕ → Type 0
IsDigit c = (48 ≤ c) × (c ≤ 57)

-- A text of digits, with one at least
abbrev pub IsNumber : List ℕ → Type 0
IsNumber [] = ⊥
IsNumber (c ∷ cs) = IsDigit c × All IsDigit cs

digits_onto-IsNumber :
    (fuel n : ℕ) (out : List ℕ) → All IsDigit out → IsNumber (digits_onto fuel n out)
unfolding digits_onto
digits_onto-IsNumber zero n out h = ((omega arith, omega arith), h)
digits_onto-IsNumber (suc fuel) n out h = elim (Bool-cases (ltb n 10)) [
  | inl small ↦ rw small ((omega arith, omega arith), h)
  | inr large ↦
      rw large
        (digits_onto-IsNumber fuel (n / 10) ((48 + n % 10) ∷ out) ((omega arith, omega arith), h))
]

decimal-IsNumber : (n : ℕ) → IsNumber (decimal n)
unfolding decimal
decimal-IsNumber n = digits_onto-IsNumber n n [] tt

parse_digits-cons :
    (bound acc d : ℕ) (out : List ℕ)
    → d ≤ 9
    → acc * 10 + d < bound
    → parse_digits bound acc ((48 + d) ∷ out) ≡ parse_digits bound (acc * 10 + d) out
unfolding parse_digits
parse_digits-cons bound acc d out small fits =
    let digit : (48 + d) - 48 ≡ d = omega arith in ground (arith, digit)

last_digit :
    (bound n : ℕ) (out : List ℕ)
    → n < 10
    → n < bound
    → parse_digits bound 0 ((48 + n % 10) ∷ out) ≡ parse_digits bound n out
last_digit bound n out small fits =
    parse_digits-cons bound 0 (n % 10) out (omega arith) (omega arith)
    ∙ ap (λ (k : ℕ). parse_digits bound k out) (omega arith)

parse_digits-digits_onto :
    (bound fuel n : ℕ) (out : List ℕ)
    → n ≤ fuel
    → n < bound
    → parse_digits bound 0 (digits_onto fuel n out) ≡ parse_digits bound n out
unfolding digits_onto
parse_digits-digits_onto bound zero n out le fits = last_digit bound n out (omega arith) fits
parse_digits-digits_onto bound (suc fuel) n out le fits = elim (Bool-cases (ltb n 10)) [
  | inl small ↦ rw small (last_digit bound n out (omega (arith, ltb→lt n 10 small)) fits)
  | inr large ↦
      let more : 10 ≤ n = ground arith in
      rw large (
        parse_digits-digits_onto bound fuel (n / 10) ((48 + n % 10) ∷ out) (omega arith)
          (omega arith)
        ∙ parse_digits-cons bound (n / 10) (n % 10) out (omega arith) (omega arith)
        ∙ ap (λ (k : ℕ). parse_digits bound k out) (omega arith))
]

parse-parse_digits : (bound : ℕ) (s : List ℕ) → IsNumber s → parse bound s ≡ parse_digits bound 0 s
unfolding parse
parse-parse_digits bound [] h = absurd h
parse-parse_digits bound (c ∷ []) h = refl
parse-parse_digits bound (c ∷ d ∷ cs) h = ground arith

-- A number that fits its type is read back.
pub parse-decimal : (bound n : ℕ) → n < bound → parse bound (decimal n) ≡ some n
unfolding decimal
parse-decimal bound n fits =
    parse-parse_digits bound (decimal n) (decimal-IsNumber n)
    ∙ parse_digits-digits_onto bound n n [] (omega arith) fits
    ∙ unfold parse_digits in refl

digit-IsInWord : (c : ℕ) → IsDigit c → IsInWord c
unfolding is_whitespace
digit-IsInWord c h = ground arith

digits-IsInWord : (cs : List ℕ) → All IsDigit cs → All IsInWord cs
digits-IsInWord cs = All-map IsDigit IsInWord cs digit-IsInWord

IsNumber→IsWord : (s : List ℕ) → IsNumber s → IsWord s
IsNumber→IsWord [] h = h
IsNumber→IsWord (c ∷ cs) h = (digit-IsInWord c h.0, digits-IsInWord cs h.1)

-- It is one word.
pub decimal-IsWord : (n : ℕ) → IsWord (decimal n)
decimal-IsWord n = IsNumber→IsWord (decimal n) (decimal-IsNumber n)

-- What is read fits its type.
parse_digits-lt :
    (bound acc : ℕ) (s : List ℕ) (n : ℕ)
    → acc < bound
    → parse_digits bound acc s ≡ some n
    → n < bound
unfolding parse_digits
parse_digits-lt bound acc [] n fits h = ground arith
parse_digits-lt bound acc (c ∷ cs) n fits h =
    ground (arith, parse_digits-lt bound (acc * 10 + (c - 48)) cs n)

pub parse-lt : (bound : ℕ) (s : List ℕ) (n : ℕ) → 0 < bound → parse bound s ≡ some n → n < bound
unfolding parse
parse-lt bound [] n pos h = cc
parse-lt bound (c ∷ []) n pos h = parse_digits-lt bound 0 (c ∷ []) n pos h
parse-lt bound (c ∷ d ∷ cs) n pos h = elim (Bool-cases (c == 43)) [
  | inl plus ↦ parse_digits-lt bound 0 (d ∷ cs) n pos (rw plus at h)
  | inr bare ↦ parse_digits-lt bound 0 (c ∷ d ∷ cs) n pos (rw bare at h)
]
