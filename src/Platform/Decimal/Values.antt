-- ===== src/Platform/Decimal/Values.antt =====
-- A number is read back from its text.
use Prim.Native.Char.{code}
use Prim.Native.String.{◌++◌}
use text.Mathlib.TextLemmas.{nil-append, cons-append}
use firemig.Prelude.{
  Bool, true, false, ◌&&◌, ◌===◌, eq_iff, subst, ℕ, zero, suc, ◌+◌, ◌-◌, ◌*◌, ◌/◌, ◌%◌, ◌<◌, ◌≡◌,
  refl, ap, sym, ◌∙◌, String, arith, ltb, inl, inr, Bool-cases,
}
use firemig.Platform.Decimal.{decimal, digits_of, digit, value, all_digits}

value-append : (acc : ℕ) (s t : String) → value acc (s ++ t) ≡ value (value acc s) t
unfolding value
value-append acc String.[] t = rw (nil-append t) refl
value-append acc (String.◌∷◌ c rest) t =
    rw (cons-append c rest t) (value-append (acc * 10 + (code c - b'0')) rest t)

value-digit : (acc d : ℕ) → d < 10 → value acc (digit d) ≡ acc * 10 + d
unfolding value
value-digit acc zero h = omega arith
value-digit acc (suc zero) h = omega arith
value-digit acc (suc (suc zero)) h = omega arith
value-digit acc (suc (suc (suc zero))) h = omega arith
value-digit acc (suc (suc (suc (suc zero)))) h = omega arith
value-digit acc (suc (suc (suc (suc (suc zero))))) h = omega arith
value-digit acc (suc (suc (suc (suc (suc (suc zero)))))) h = omega arith
value-digit acc (suc (suc (suc (suc (suc (suc (suc zero))))))) h = omega arith
value-digit acc (suc (suc (suc (suc (suc (suc (suc (suc zero)))))))) h = omega arith
value-digit acc (suc (suc (suc (suc (suc (suc (suc (suc (suc zero))))))))) h = omega arith
value-digit acc (suc (suc (suc (suc (suc (suc (suc (suc (suc (suc d)))))))))) h =
    absurd (omega arith)

value-digits_of : (fuel n : ℕ) → n < fuel → value 0 (digits_of fuel n) ≡ n
unfolding digits_of
value-digits_of zero n h = elim h [ ]
value-digits_of (suc fuel) n h = elim (Bool-cases (ltb n 10)) [
  | inl short ↦ rw short (value-digit 0 n (ground arith) ∙ omega arith)
  | inr long ↦ rw long (
      value-append 0 (digits_of fuel (n / 10)) (digit (n % 10))
      ∙ value-digit (value 0 (digits_of fuel (n / 10))) (n % 10) (omega arith)
      ∙ omega (arith, value-digits_of fuel (n / 10) (ground arith)))
]

pub value-decimal : (n : ℕ) → value 0 (decimal n) ≡ n
unfolding decimal
value-decimal n = value-digits_of (n + 1) n (omega arith)

pub decimal_injective : (m n : ℕ) → decimal m ≡ decimal n → m ≡ n
decimal_injective m n h = sym (value-decimal m) ∙ ap (value 0) h ∙ value-decimal n

all_digits-append : (s t : String) → all_digits (s ++ t) ≡ (all_digits s && all_digits t)
unfolding all_digits
all_digits-append String.[] t = rw (nil-append t) refl
all_digits-append (String.◌∷◌ c s) t =
    rw (cons-append c s t) (ground (arith, all_digits-append s t))

all_digits-digit : (d : ℕ) → d < 10 → all_digits (digit d) ≡ true
unfolding all_digits
all_digits-digit zero h = refl
all_digits-digit (suc zero) h = refl
all_digits-digit (suc (suc zero)) h = refl
all_digits-digit (suc (suc (suc zero))) h = refl
all_digits-digit (suc (suc (suc (suc zero)))) h = refl
all_digits-digit (suc (suc (suc (suc (suc zero))))) h = refl
all_digits-digit (suc (suc (suc (suc (suc (suc zero)))))) h = refl
all_digits-digit (suc (suc (suc (suc (suc (suc (suc zero))))))) h = refl
all_digits-digit (suc (suc (suc (suc (suc (suc (suc (suc zero)))))))) h = refl
all_digits-digit (suc (suc (suc (suc (suc (suc (suc (suc (suc zero))))))))) h = refl
all_digits-digit (suc (suc (suc (suc (suc (suc (suc (suc (suc (suc d)))))))))) h =
    absurd (omega arith)

all_digits-digits_of : (fuel n : ℕ) → all_digits (digits_of fuel n) ≡ true
unfolding digits_of all_digits
all_digits-digits_of zero n = refl
all_digits-digits_of (suc fuel) n = elim (Bool-cases (ltb n 10)) [
  | inl short ↦ rw short (all_digits-digit n (ground arith))
  | inr long ↦ rw long (
      all_digits-append (digits_of fuel (n / 10)) (digit (n % 10))
      ∙ both _ _ (all_digits-digits_of fuel (n / 10)) (all_digits-digit (n % 10) (omega arith)))
]
  where
    both : (a b : Bool) → a ≡ true → b ≡ true → (a && b) ≡ true
    both a b p q = rw (p, q) refl

pub all_digits-decimal : (n : ℕ) → all_digits (decimal n) ≡ true
unfolding decimal
all_digits-decimal n = all_digits-digits_of (n + 1) n

-- The text of a number is not empty: an empty one would be read as 0.
pub decimal-ne-empty : (n : ℕ) → (decimal n === "") ≡ false
unfolding decimal digits_of value
decimal-ne-empty n = elim (Bool-cases (decimal n === "")) [
  | inr other ↦ other
  | inl same ↦
      let e : decimal n ≡ "" = (eq_iff (decimal n) "").0 same in
      let z : n ≡ 0 = sym (value-decimal n) ∙ ap (value 0) e in
      subst (λ k. (decimal k === "") ≡ false) (sym z) refl
]
