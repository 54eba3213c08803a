-- ===== src/WordCount/Main/Numerals.antt =====
-- Reading the instance numbers of lines2words.
use iceflow.Prelude.{
  ℕ, zero, suc, ◌+◌, ◌-◌, ◌*◌, ◌/◌, ◌%◌, ◌<◌, ◌≤◌, ◌≡◌, refl, ap, ◌∙◌, inl, inr, Bool, true, false,
  Bool-cases, List, [], ◌∷◌, ◌++◌, ltb, if◌then◌else◌, All, arith,
}
use iceflow.WordCount.Text.{is_space}
use iceflow.WordCount.Main.{
  is_digit, starts_with_digit, skip_spaces, read_digits, as_int, unsigned_number, signed_number,
  stoi,
}

-- The decimal digits of a number, the last ones first computed.
abbrev digits_of : (fuel : ℕ) → ℕ → List ℕ
digits_of zero n = (48 + n % 10) ∷ []
digits_of (suc fuel) n =
    let before = digits_of fuel (n / 10) in
    if ltb n 10 then (48 + n) ∷ [] else before ++ (48 + n % 10) ∷ []

-- `std::to_string`
abbrev pub decimal : ℕ → List ℕ
decimal n = digits_of n n

read_digits-append :
    (n : ℕ) (xs ys : List ℕ)
    → All (λ c. is_digit c ≡ true) xs
    → read_digits n (xs ++ ys) ≡ read_digits (read_digits n xs) ys
unfolding read_digits
read_digits-append n [] ys h = refl
read_digits-append n (c ∷ xs) ys h = rw (h.0) (read_digits-append (n * 10 + (c - 48)) xs ys h.1)

AllDigits-append :
    (xs : List ℕ) (c : ℕ)
    → All (λ d. is_digit d ≡ true) xs
    → is_digit c ≡ true
    → All (λ d. is_digit d ≡ true) (xs ++ c ∷ [])
AllDigits-append [] c h k = (k, tt)
AllDigits-append (x ∷ xs) c h k = (h.0, AllDigits-append xs c h.1 k)

digit-lem : (n : ℕ) → n < 10 → is_digit (48 + n) ≡ true
unfolding is_digit
digit-lem n h = ground arith

digits_of-AllDigits : (fuel n : ℕ) → All (λ c. is_digit c ≡ true) (digits_of fuel n)
digits_of-AllDigits zero n = (digit-lem (n % 10) (omega arith), tt)
digits_of-AllDigits (suc fuel) n = elim (Bool-cases (ltb n 10)) [
  | inl small ↦ rw small (digit-lem n (ground arith), tt)
  | inr big ↦ rw big (
      AllDigits-append (digits_of fuel (n / 10)) (48 + n % 10) (digits_of-AllDigits fuel (n / 10))
        (digit-lem (n % 10) (omega arith)))
]

read_digits-last : (n d : ℕ) → d < 10 → read_digits n ((48 + d) ∷ []) ≡ n * 10 + d
unfolding read_digits is_digit
read_digits-last n d h = ground arith

read_digits-digits_of : (fuel n : ℕ) → n ≤ fuel → read_digits 0 (digits_of fuel n) ≡ n
read_digits-digits_of zero n h = read_digits-last 0 (n % 10) (omega arith) ∙ omega arith
read_digits-digits_of (suc fuel) n h = elim (Bool-cases (ltb n 10)) [
  | inl small ↦ rw small (read_digits-last 0 n (ground arith) ∙ omega arith)
  | inr big ↦ rw big (
      read_digits-append 0 (digits_of fuel (n / 10)) ((48 + n % 10) ∷ [])
        (digits_of-AllDigits fuel (n / 10))
      ∙ (ap (λ m. read_digits m ((48 + n % 10) ∷ []))
            (read_digits-digits_of fuel (n / 10) (ground arith))
          ∙ (read_digits-last (n / 10) (n % 10) (omega arith) ∙ omega arith)))
]

starts_with_digit-append :
    (xs ys : List ℕ) → starts_with_digit xs ≡ true → starts_with_digit (xs ++ ys) ≡ true
unfolding starts_with_digit
starts_with_digit-append [] ys h = absurd (ground arith)
starts_with_digit-append (x ∷ xs) ys h = h

starts_with_digit-digits_of : (fuel n : ℕ) → starts_with_digit (digits_of fuel n) ≡ true
unfolding starts_with_digit
starts_with_digit-digits_of zero n = digit-lem (n % 10) (omega arith)
starts_with_digit-digits_of (suc fuel) n = elim (Bool-cases (ltb n 10)) [
  | inl small ↦ rw small (digit-lem n (ground arith))
  | inr big ↦ rw big (
      starts_with_digit-append (digits_of fuel (n / 10)) _
        (starts_with_digit-digits_of fuel (n / 10)))
]

read_digits-end : (n : ℕ) (rest : List ℕ) → starts_with_digit rest ≡ false → read_digits n rest ≡ n
unfolding read_digits starts_with_digit
read_digits-end n [] h = refl
read_digits-end n (c ∷ cs) h = rw h refl

unsigned_number-decimal :
    (negative : Bool) (n : ℕ) (rest : List ℕ)
    → starts_with_digit rest ≡ false
    → unsigned_number negative (decimal n ++ rest) ≡ as_int negative n
unfolding unsigned_number
unsigned_number-decimal negative n rest h =
    rw (starts_with_digit-append (decimal n) rest (starts_with_digit-digits_of n n)) (
      ap (as_int negative) (
        read_digits-append 0 (decimal n) rest (digits_of-AllDigits n n)
        ∙ (ap (λ m. read_digits m rest) (read_digits-digits_of n n (omega arith))
            ∙ read_digits-end n rest h)))

-- A minus sign, or nothing.
abbrev pub sign : Bool → List ℕ
sign true = 45 ∷ []
sign false = []

signed_number-digit :
    (text : List ℕ)
    → starts_with_digit text ≡ true
    → signed_number text ≡ unsigned_number false text
unfolding signed_number starts_with_digit is_digit
signed_number-digit [] h = absurd (ground arith)
signed_number-digit (c ∷ cs) h = ground arith

skip_spaces-digit : (text : List ℕ) → starts_with_digit text ≡ true → skip_spaces text ≡ text
unfolding skip_spaces starts_with_digit is_digit is_space
skip_spaces-digit [] h = refl
skip_spaces-digit (c ∷ cs) h = ground arith

skip_spaces-append :
    (spaces text : List ℕ)
    → All (λ c. is_space c ≡ true) spaces
    → skip_spaces (spaces ++ text) ≡ skip_spaces text
unfolding skip_spaces
skip_spaces-append [] text h = refl
skip_spaces-append (c ∷ cs) text h = rw (h.0) (skip_spaces-append cs text h.1)

signed_number-minus :
    (text : List ℕ) → signed_number (skip_spaces (45 ∷ text)) ≡ unsigned_number true text
unfolding signed_number skip_spaces is_space
signed_number-minus text = refl

-- Whatever white space goes before and whatever comes after, `std::stoi` reads back a decimal number
-- with or without a minus sign, where it fits 32 bits, and throws where it does not.
pub stoi-decimal :
    (spaces : List ℕ) (negative : Bool) (n : ℕ) (rest : List ℕ)
    → All (λ c. is_space c ≡ true) spaces
    → starts_with_digit rest ≡ false
    → stoi (spaces ++ (sign negative ++ (decimal n ++ rest))) ≡ as_int negative n
unfolding stoi
stoi-decimal spaces negative n rest blank ends =
    ap signed_number (skip_spaces-append spaces _ blank) ∙ without negative
  where
    digit : starts_with_digit (decimal n ++ rest) ≡ true
    digit = starts_with_digit-append (decimal n) rest (starts_with_digit-digits_of n n)

    without : (b : Bool) → signed_number (skip_spaces (sign b ++ (decimal n ++ rest))) ≡ as_int b n
    without false =
        ap signed_number (skip_spaces-digit (decimal n ++ rest) digit)
        ∙ (signed_number-digit (decimal n ++ rest) digit
            ∙ unsigned_number-decimal false n rest ends)
    without true =
        signed_number-minus (decimal n ++ rest) ∙ unsigned_number-decimal true n rest ends
