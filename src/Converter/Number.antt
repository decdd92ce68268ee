-- ===== src/Converter/Number.antt =====
-- std::stoul on a text of bytes, as src/tools/yuv420_convert.cpp uses it, and the numbers that
-- std::to_string has written.
use cherupi_v4l.Base.{
  Bool, Bool-cases, List, Option, [], arith, false, if◌then◌else◌, inl, inr, leb, ltb, none, refl,
  some, suc, true, zero, ℕ, ◌%◌, ◌&&◌, ◌*◌, ◌++◌, ◌+◌, ◌-◌, ◌/◌, ◌<◌, ◌==◌, ◌^◌, ◌||◌, ◌∙◌, ◌∷◌,
  ◌≡◌, ◌⊎◌,
}
use cherupi_v4l.Processor.Filename.{decimal, digits_fuel}

abbrev pub is_digit : ℕ → Bool
is_digit c = leb b'0' c && leb c b'9'

is_space : ℕ → Bool
is_space c = c == 32 || (leb 9 c && leb c 13)

-- The value of the digits that stand in front, after the digits of `v`.
unfoldable pub read_digits : ℕ → List ℕ → ℕ
read_digits v [] = v
read_digits v (c ∷ cs) = if is_digit c then read_digits (v * 10 + (c - b'0')) cs else v

-- Out of the range of unsigned long, stoul throws.
unfoldable pub read_unsigned : List ℕ → Option ℕ
read_unsigned [] = none
read_unsigned (c ∷ cs) =
    if is_digit c
    then (if ltb (read_digits 0 (c ∷ cs)) (2 ^ 64) then some (read_digits 0 (c ∷ cs)) else none)
    else none

negated : Option ℕ → Option ℕ
negated none = none
negated (some n) = some ((2 ^ 64 - n) % 2 ^ 64)

-- A sign is allowed, and a negative number wraps.
unfoldable pub read_signed : List ℕ → Option ℕ
unfolding negated
read_signed [] = none
read_signed (c ∷ cs) =
    if c == b'-'
    then negated (read_unsigned cs)
    else if c == b'+'
    then read_unsigned cs
    else read_unsigned (c ∷ cs)

-- White space is skipped, and what follows the number is ignored.
unfoldable pub stoul : List ℕ → Option ℕ
unfolding is_space
stoul [] = none
stoul (c ∷ cs) = let rest = stoul cs in if is_space c then rest else read_signed (c ∷ cs)

-- Nothing, or something that is not a digit.
abbrev pub IsDelimited : List ℕ → Type 0
IsDelimited [] = Unit
IsDelimited (c ∷ cs) = is_digit c ≡ false

abbrev AllDigits : List ℕ → Type 0
AllDigits [] = Unit
AllDigits (c ∷ cs) = (is_digit c ≡ true) × AllDigits cs

read_digits-delimited : (v : ℕ) (rest : List ℕ) → IsDelimited rest → read_digits v rest ≡ v
unfolding read_digits
read_digits-delimited v [] h = refl
read_digits-delimited v (c ∷ cs) h = rw h refl

-- The digits that the fuel produces in front of `acc` count up to `n`.
read_digits-digits_fuel :
    (f n : ℕ) (acc rest : List ℕ)
    → n < f
    → read_digits 0 (digits_fuel f n acc ++ rest) ≡ read_digits n (acc ++ rest)
unfolding digits_fuel read_digits
read_digits-digits_fuel zero n acc rest h = absurd (omega arith)
read_digits-digits_fuel (suc f) n acc rest h =
    ground (arith, read_digits-digits_fuel f (n / 10) ((48 + n % 10) ∷ acc) rest)

read_digits-decimal :
    (n : ℕ) (rest : List ℕ) → IsDelimited rest → read_digits 0 (decimal n ++ rest) ≡ n
unfolding decimal
read_digits-decimal n rest h =
    read_digits-digits_fuel (suc n) n [] rest (omega arith) ∙ read_digits-delimited n rest h

abbrev StartsWithDigit : List ℕ → Type 0
StartsWithDigit [] = ⊥
StartsWithDigit (c ∷ cs) = is_digit c ≡ true

digits_fuel-head :
    (f n : ℕ) (acc : List ℕ) → StartsWithDigit acc ⊎ (0 < f) → StartsWithDigit (digits_fuel f n acc)
unfolding digits_fuel
digits_fuel-head zero n acc (inl h) = h
digits_fuel-head zero n acc (inr h) = absurd (omega arith)
digits_fuel-head (suc f) n acc h =
    let rest = digits_fuel-head f (n / 10) ((48 + n % 10) ∷ acc) (inl (ground arith)) in
    elim (Bool-cases (ltb n 10)) [ inl e ↦ rw e (ground arith) | inr e ↦ rw e rest ]

decimal-head : (n : ℕ) → StartsWithDigit (decimal n)
unfolding decimal
decimal-head n = digits_fuel-head (suc n) n [] (inr (omega arith))

read_unsigned-digits :
    (ds rest : List ℕ) (n : ℕ)
    → StartsWithDigit ds
    → read_digits 0 (ds ++ rest) ≡ n
    → n < 2 ^ 64
    → stoul (ds ++ rest) ≡ some n
unfolding stoul read_signed read_unsigned
read_unsigned-digits [] rest n h e l = absurd h
read_unsigned-digits (c ∷ cs) rest n h e l = ground (arith, e)

-- stoul reads back a number that to_string has written, whatever follows, as long as it does not
-- go on with a digit.
pub stoul-decimal :
    (n : ℕ) (rest : List ℕ) → n < 2 ^ 64 → IsDelimited rest → stoul (decimal n ++ rest) ≡ some n
stoul-decimal n rest l h =
    read_unsigned-digits (decimal n) rest n (decimal-head n) (read_digits-decimal n rest h) l
