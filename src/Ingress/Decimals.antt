-- ===== src/Ingress/Decimals.antt =====
-- A number written in decimal is read back by `parse::<u64>()`.
use Prim.Native.String
use megaserver.Common.{
  ℕ, zero, suc, ◌+◌, ◌*◌, ◌/◌, ◌%◌, ◌^◌, ◌≤◌, ◌<◌, ◌≡◌, ◌∙◌, refl, String, some, List, [], ◌∷◌, ltb,
  arith, Bool-cases, inl, inr,
}
use megaserver.Common.Texts.{codes, codes-append, digit_text, decimal_from, decimal}
use megaserver.Ingress.{digits_value, unsigned, without_plus, parse_u64}

digit-codes : (d : ℕ) → d < 10 → codes (digit_text d) ≡ (b'0' + d) ∷ []
digit-codes zero h = refl
digit-codes (suc zero) h = refl
digit-codes (suc (suc zero)) h = refl
digit-codes (suc (suc (suc zero))) h = refl
digit-codes (suc (suc (suc (suc zero)))) h = refl
digit-codes (suc (suc (suc (suc (suc zero))))) h = refl
digit-codes (suc (suc (suc (suc (suc (suc zero)))))) h = refl
digit-codes (suc (suc (suc (suc (suc (suc (suc zero))))))) h = refl
digit-codes (suc (suc (suc (suc (suc (suc (suc (suc zero)))))))) h = refl
digit-codes (suc (suc (suc (suc (suc (suc (suc (suc (suc zero))))))))) h = refl
digit-codes (suc (suc (suc (suc (suc (suc (suc (suc (suc (suc d)))))))))) h =
    absurd (omega (arith, h))

-- One digit in front.
digit_first :
    (a d m : ℕ) (rest : String)
    → d < 10
    → a * 10 + d ≡ m
    → digits_value a (codes (String.◌++◌ (digit_text d) rest)) ≡ digits_value m (codes rest)
digit_first a d m rest h e =
    rw (codes-append (digit_text d) rest, digit-codes d h) (grind (arith, h, e))

-- The digits of `n` in front of a text, read from 0.
digits_value-decimal_from :
    (fuel n : ℕ) (rest : String)
    → n < fuel
    → digits_value 0 (codes (decimal_from fuel n rest)) ≡ digits_value n (codes rest)
unfolding decimal_from
digits_value-decimal_from zero n rest h = absurd (omega (arith, h))
digits_value-decimal_from (suc fuel) n rest h = elim (Bool-cases (ltb n 10)) [
  | inl e ↦ rw e (digit_first 0 n n rest (ground (arith, e)) (omega arith))
  | inr e ↦ rw e (
      digits_value-decimal_from fuel (n / 10) (String.◌++◌ (digit_text (n % 10)) rest)
        (smaller (ground (arith, e)))
      ∙ digit_first (n / 10) (n % 10) n rest (omega arith) (omega arith))
]
  where
    smaller : 10 ≤ n → n / 10 < fuel
    smaller k = omega (arith, h, k)

abbrev IsFilled : List ℕ → Type 0
IsFilled [] = ⊥
IsFilled (c ∷ cs) = Unit

IsFilled-digit :
    (d : ℕ) (rest : String) → d < 10 → IsFilled (codes (String.◌++◌ (digit_text d) rest))
IsFilled-digit d rest h = rw (codes-append (digit_text d) rest, digit-codes d h) tt

IsFilled-decimal_from :
    (fuel n : ℕ) (rest : String)
    → IsFilled (codes rest)
    → IsFilled (codes (decimal_from fuel n rest))
unfolding decimal_from
IsFilled-decimal_from zero n rest h = h
IsFilled-decimal_from (suc fuel) n rest h = elim (Bool-cases (ltb n 10)) [
  | inl e ↦ rw e (IsFilled-digit n rest (ground (arith, e)))
  | inr e ↦
      rw e (IsFilled-decimal_from fuel (n / 10) _ (IsFilled-digit (n % 10) rest (omega arith)))
]

IsFilled-decimal : (n : ℕ) → IsFilled (codes (decimal n))
unfolding decimal decimal_from
IsFilled-decimal n =
    rw (native_suc n, decimal_from)
      (elim (Bool-cases (ltb n 10)) [
        | inl e ↦ rw e (IsFilled-digit n "" (ground (arith, e)))
        | inr e ↦
            rw e (IsFilled-decimal_from n (n / 10) _ (IsFilled-digit (n % 10) "" (omega arith)))
      ])
  where
    native_suc : (n : ℕ) → n + 1 ≡ suc n
    native_suc n = omega arith

-- A text of digits has no sign before them.
unsigned-digits :
    (cs : List ℕ) (n : ℕ)
    → IsFilled cs
    → digits_value 0 cs ≡ some n
    → unsigned (without_plus cs) ≡ some n
unsigned-digits [] n f h = absurd f
unsigned-digits (c ∷ cs) n f h = grind (arith, h)

-- A number of 64 bits is read back from its decimal text.
pub parse_u64-decimal : (n : ℕ) → n < 2 ^ 64 → parse_u64 (decimal n) ≡ some n
unfolding parse_u64 decimal
parse_u64-decimal n h =
    rw
      (unsigned-digits (codes (decimal n)) n (IsFilled-decimal n)
        (digits_value-decimal_from (n + 1) n "" (omega arith)))
      (ground (arith, h))
