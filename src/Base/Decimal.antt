-- ===== src/Base/Decimal.antt =====
-- The digits that printf gives an unsigned number, and what reading them gives back.
use Prim.Native.Nat.{ℕ, zero, suc, ◌+◌, ◌-◌, ◌*◌, ◌/◌, ◌%◌, ◌≤◌, ◌<◌}
use mathlib.Core.Bool.{Bool, true, false, ◌&&◌}
use mathlib.Core.List.{[], ◌∷◌, ◌++◌}
use mathlib.Core.Path.{◌≡◌, refl, sym, ◌∙◌, ap}
use mathlib.Core.Logic.{inl, inr}
use native.Mathlib.Omega.{arith}
use dasm.Base.Lists.{Bytes}
use dasm.Base.Tests.{ltb, leb, if◌then◌else◌, Bool-cases, ltb→lt}

digits_within : ℕ → ℕ → Bytes
digits_within zero n = []
digits_within (suc k) n =
    let front = digits_within k (n / 10) in
    if ltb n 10 then (48 + n) ∷ [] else front ++ (48 + n % 10) ∷ []

-- As many rounds as the number are enough.
unfoldable pub decimal : ℕ → Bytes
unfolding digits_within
decimal n = digits_within (suc n) n

abbrev pub is_digit : ℕ → Bool
is_digit c = leb 48 c && leb c 57

-- The digits at the front of a string and what follows them.
unfoldable pub digits_value : ℕ → Bytes → ℕ
digits_value acc [] = acc
digits_value acc (c ∷ s) = if is_digit c then digits_value (acc * 10 + (c - 48)) s else acc

unfoldable pub after_digits : Bytes → Bytes
after_digits [] = []
after_digits (c ∷ s) = if is_digit c then after_digits s else c ∷ s

-- The string does not begin with a digit.
abbrev pub EndsDigits : Bytes → Type 0
EndsDigits [] = Unit {0}
EndsDigits (c ∷ s) = is_digit c ≡ false

-- All bytes are digits.
abbrev pub AllDigits : Bytes → Type 0
AllDigits [] = Unit {0}
AllDigits (c ∷ s) = (is_digit c ≡ true) × AllDigits s

AllDigits-append : (a b : Bytes) → AllDigits a → AllDigits b → AllDigits (a ++ b)
AllDigits-append [] b h k = k
AllDigits-append (c ∷ a) b h k = (h.0, AllDigits-append a b h.1 k)

digit_IsDigit : (d : ℕ) → d < 10 → is_digit (48 + d) ≡ true
digit_IsDigit d h = ground arith

digits_within-AllDigits : (k n : ℕ) → AllDigits (digits_within k n)
unfolding digits_within
digits_within-AllDigits zero n = tt
digits_within-AllDigits (suc k) n = elim (Bool-cases (ltb n 10)) [
  | inl small ↦ rw small (digit_IsDigit n (ltb→lt n 10 small), tt)
  | inr large ↦ rw large (
      AllDigits-append (digits_within k (n / 10)) _ (digits_within-AllDigits k (n / 10))
        (digit_IsDigit (n % 10) (omega arith), tt))
]

pub decimal-AllDigits : (n : ℕ) → AllDigits (decimal n)
unfolding decimal
decimal-AllDigits n = digits_within-AllDigits (suc n) n

pub after_digits-append :
    (ds rest : Bytes) → AllDigits ds → EndsDigits rest → after_digits (ds ++ rest) ≡ rest
unfolding after_digits
after_digits-append [] [] h e = refl
after_digits-append [] (c ∷ s) h e = rw e
after_digits-append (d ∷ ds) rest h e = rw h.0 (after_digits-append ds rest h.1 e)

digits_value-append :
    (acc : ℕ) (ds rest : Bytes)
    → AllDigits ds
    → digits_value acc (ds ++ rest) ≡ digits_value (digits_value acc ds) rest
unfolding digits_value
digits_value-append acc [] rest h = refl
digits_value-append acc (d ∷ ds) rest h =
    rw h.0 (digits_value-append (acc * 10 + (d - 48)) ds rest h.1)

digits_value-digits_within : (k n : ℕ) → n < k → digits_value 0 (digits_within k n) ≡ n
unfolding digits_within digits_value
digits_value-digits_within zero n h = absurd (omega arith)
digits_value-digits_within (suc k) n h = elim (Bool-cases (ltb n 10)) [
  | inl small ↦ rw (small, digit_IsDigit n (ltb→lt n 10 small)) (omega arith)
  | inr large ↦ rw large (
      digits_value-append 0 (digits_within k (n / 10)) ((48 + n % 10) ∷ [])
        (digits_within-AllDigits k (n / 10))
      ∙ rw
          (
            digits_value-digits_within k (n / 10) (ground arith),
            digit_IsDigit (n % 10) (omega arith),
          )
          (omega arith))
]

digits_value-end : (acc : ℕ) (rest : Bytes) → EndsDigits rest → digits_value acc rest ≡ acc
unfolding digits_value
digits_value-end acc [] h = refl
digits_value-end acc (c ∷ s) h = rw h

-- Reading the digits of a number gives the number, and stops behind them.
pub digits_value-decimal :
    (n : ℕ) (rest : Bytes) → EndsDigits rest → digits_value 0 (decimal n ++ rest) ≡ n
unfolding decimal
digits_value-decimal n rest h =
    digits_value-append 0 (decimal n) rest (decimal-AllDigits n)
    ∙ rw (digits_value-digits_within (suc n) n (omega arith)) (digits_value-end n rest h)

-- Two numbers with the same digits in front of a byte that is no digit are the same, and so is the
-- rest.
pub decimal-injective :
    (m n : ℕ) (s t : Bytes)
    → EndsDigits s
    → EndsDigits t
    → decimal m ++ s ≡ decimal n ++ t
    → (m ≡ n) × (s ≡ t)
decimal-injective m n s t hs ht e = (
  sym (digits_value-decimal m s hs) ∙ ap (digits_value 0) e ∙ digits_value-decimal n t ht,
  sym (after_digits-append (decimal m) s (decimal-AllDigits m) hs)
      ∙ ap after_digits e
      ∙ after_digits-append (decimal n) t (decimal-AllDigits n) ht,
)

-- The first digit, which is no zero unless the number is.
pub record Leads (n : ℕ) (s : Bytes) : Type 0 where
  pub first : ℕ
  pub others : Bytes
  pub splits : s ≡ first ∷ others
  pub lower : 48 ≤ first
  pub upper : first ≤ 57
  pub nonzero : 0 < n → 49 ≤ first

digits_within-Leads : (k n : ℕ) → n < k → Leads n (digits_within k n)
unfolding digits_within
digits_within-Leads zero n h = absurd (omega arith)
digits_within-Leads (suc k) n h = elim (Bool-cases (ltb n 10)) [
  | inl small ↦
      let lt = ltb→lt n 10 small in
      rw small (record {
        first = 48 + n;
        others = [];
        splits = refl;
        lower = omega arith;
        upper = omega arith;
        nonzero = λ pos. omega arith;
      })
  | inr large ↦
      let l = digits_within-Leads k (n / 10) (ground arith) in
      let ten : 10 ≤ n = ground arith in
      rw large (record {
        first = l.first;
        others = l.others ++ (48 + n % 10) ∷ [];
        splits = ap (λ (s : Bytes). s ++ (48 + n % 10) ∷ []) l.splits;
        lower = l.lower;
        upper = l.upper;
        nonzero = λ pos. l.nonzero (omega arith);
      })
]

pub decimal-Leads : (n : ℕ) → Leads n (decimal n)
unfolding decimal
decimal-Leads n = digits_within-Leads (suc n) n (omega arith)
