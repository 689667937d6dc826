-- ===== src/Expr/Steps/Numbers.antt =====
-- eval of src/exp.c at a decimal number.
use dasm.Base.{
  ℕ, zero, suc, ◌+◌, ◌-◌, ◌*◌, ◌%◌, ◌≤◌, ◌<◌, ◌≡◌, ◌≢◌, ◌^◌, refl, ap, ◌∙◌, true, false, ◌&&◌,
  Option, none, some, [], ◌∷◌, ◌++◌, arith, leb, ◌==◌, if◌then◌else◌, Bytes, peek, drop, Bool-cases,
  inl, inr, ne→==, le→leb,
}
use dasm.Base.Decimal.{
  decimal, AllDigits, EndsDigits, is_digit, digits_value, decimal-AllDigits, digits_value-decimal,
  decimal-Leads,
}
use dasm.Expr.Eval.{Eval, Evaluator, number_step, on_machine}
use dasm.Expr.Stack.{stackarg}
use dasm.Expr.Literals.{dec_digit, oct_digit, scan_value, scan_rest}
use dasm.Expr.Steps.{eval_step, default_step}
use dasm.Run.{Run, ok, ◌>>=◌}
use dasm.Word.{word_size}

-- What follows an operand: nothing that would belong to a number or to a conversion.
abbrev pub Follows : ℕ → Type 0
Follows c = (is_digit c ≡ false) × (c ≢ b'$') × (c ≢ b'x') × (c ≢ b'd')

dec_digit-is_digit : (c : ℕ) → dec_digit c ≡ (if is_digit c then some (c - 48) else none)
unfolding dec_digit
dec_digit-is_digit c = refl

scan_rest-digits :
    (ds s : Bytes) → AllDigits ds → is_digit (peek s) ≡ false → scan_rest dec_digit (ds ++ s) ≡ s
unfolding scan_rest
scan_rest-digits [] [] h k = refl
scan_rest-digits [] (c ∷ s) h k = rw (dec_digit-is_digit c, k, scan_rest)
scan_rest-digits (d ∷ ds) s h k =
    rw (dec_digit-is_digit d, h.0, scan_rest) (scan_rest-digits ds s h.1 k)

le-digits_value : (acc : ℕ) (s : Bytes) → acc ≤ digits_value acc s
unfolding digits_value
le-digits_value acc [] = omega arith
le-digits_value acc (c ∷ s) = ground (arith, le-digits_value (acc * 10 + (c - 48)) s)

word_small : (x : ℕ) → x < word_size → x % word_size ≡ x
word_small x h = omega arith

scan_value-cons :
    (acc c : ℕ) (s : Bytes)
    → is_digit c ≡ true
    → scan_value dec_digit 10 acc (c ∷ s)
      ≡ scan_value dec_digit 10 ((acc * 10 + (c - 48)) % word_size) s
unfolding scan_value
scan_value-cons acc c s d = rw (dec_digit-is_digit c, d, scan_value)

scan_value-digits_value :
    (acc : ℕ) (s : Bytes)
    → digits_value acc s < word_size
    → scan_value dec_digit 10 acc s ≡ digits_value acc s
unfolding digits_value
scan_value-digits_value acc [] h = unfold scan_value in refl
scan_value-digits_value acc (c ∷ s) h = elim (Bool-cases (is_digit c)) [
  | inl d ↦
      let acc' = acc * 10 + (c - 48) in
      let below : digits_value acc' s < word_size = rw d at h in
      rw d (
        scan_value-cons acc c s d
        ∙ rw (word_small acc' (omega (arith, le-digits_value acc' s)))
            (scan_value-digits_value (acc * 10 + (c - 48)) s below))
  | inr n ↦ rw n (unfold scan_value in rw (dec_digit-is_digit c, n, scan_value))
]

scan_oct-zero :
    (s : Bytes)
    → is_digit (peek s) ≡ false
    → (scan_value oct_digit 8 0 (48 ∷ s) ≡ 0) × (scan_rest oct_digit (48 ∷ s) ≡ s)
unfolding scan_value scan_rest oct_digit
scan_oct-zero [] h = (refl, refl)
scan_oct-zero (c ∷ s) h = (ground arith, ground arith)

-- What a number leaves: its value as an argument, and the text behind it.
abbrev pub number_read : ℕ → Bytes → Eval → Run Eval
number_read v s e = on_machine (stackarg v 0) e >>= λ e'. ok (record e' { str = s })

ends : (s : Bytes) → is_digit (peek s) ≡ false → EndsDigits s
ends [] h = tt
ends (c ∷ s) h = h

number_step-decimal :
    (v : ℕ) (s : Bytes) (e : Eval)
    → v < word_size
    → is_digit (peek s) ≡ false
    → e.str ≡ decimal v ++ s
    → number_step dec_digit 10 0 e ≡ number_read v s e
unfolding number_step
number_step-decimal v s e h f eq =
    let read = digits_value-decimal v s (ends s f) in
    let scanned = scan_value-digits_value 0 (decimal v ++ s) (omega arith) ∙ read in
    rw (eq, scanned, scan_rest-digits (decimal v) s (decimal-AllDigits v) f)

number_step-zero :
    (s : Bytes) (e : Eval)
    → is_digit (peek s) ≡ false
    → e.str ≡ 48 ∷ s
    → number_step oct_digit 8 0 e ≡ number_read 0 s e
unfolding number_step
number_step-zero s e f eq = rw (eq, (scan_oct-zero s f).0, (scan_oct-zero s f).1)

default_step-number :
    (nested : Option Evaluator) (e : Eval)
    → (peek (scan_rest dec_digit e.str) == b'$') ≡ false
    → (peek e.str == b'0') ≡ false
    → (leb b'1' (peek e.str) && leb (peek e.str) b'9') ≡ true
    → default_step nested e ≡ number_step dec_digit 10 0 e
unfolding default_step
default_step-number nested e a b c = rw (a, b, c)

default_step-zero :
    (nested : Option Evaluator) (e : Eval)
    → (peek (scan_rest dec_digit e.str) == b'$') ≡ false
    → (peek e.str == b'0') ≡ true
    → (peek (drop 1 e.str) == b'x') ≡ false
    → default_step nested e ≡ number_step oct_digit 8 0 e
unfolding default_step
default_step-zero nested e a b c = rw (a, b, c)

scan_rest_at :
    (v : ℕ) (s t : Bytes)
    → Follows (peek s)
    → t ≡ decimal v ++ s
    → (peek (scan_rest dec_digit t) == b'$') ≡ false
scan_rest_at v s t f eq =
    rw (eq, scan_rest-digits (decimal v) s (decimal-AllDigits v) f.0) (ne→== (peek s) b'$' f.1)

-- A number in front of what may follow it is read whole.
default_step-decimal :
    (nested : Option Evaluator) (v : ℕ) (s : Bytes) (e : Eval)
    → v < word_size
    → Follows (peek s)
    → e.str ≡ decimal v ++ s
    → default_step nested e ≡ number_read v s e
unfolding decimal
default_step-decimal nested zero s e h f eq =
    default_step-zero nested e (scan_rest_at 0 s e.str f eq) (rw eq refl)
      (rw eq (ne→== (peek s) b'x' f.2))
    ∙ number_step-zero s e f.0 eq
default_step-decimal nested (suc v) s e h f eq =
    let l = decimal-Leads (suc v) in
    let front : peek e.str ≡ l.first = ap peek eq ∙ ap (λ (t : Bytes). peek (t ++ s)) l.splits in
    let large = l.nonzero (omega arith) in
    default_step-number nested e (scan_rest_at (suc v) s e.str f eq)
      (rw front (ne→== l.first b'0' (omega arith)))
      (rw (front, le→leb b'1' l.first large, le→leb l.first b'9' l.upper))
    ∙ number_step-decimal (suc v) s e h f.0 eq

eval_step-digit_at :
    (d processor : ℕ) (nested : Option Evaluator) (s : Bytes) (e : Eval)
    → d < 10
    → e.str ≡ (48 + d) ∷ s
    → eval_step processor nested e ≡ default_step nested e
unfolding eval_step
eval_step-digit_at zero processor nested s e h eq = rw eq
eval_step-digit_at (suc zero) processor nested s e h eq = rw eq
eval_step-digit_at (suc (suc zero)) processor nested s e h eq = rw eq
eval_step-digit_at (suc (suc (suc zero))) processor nested s e h eq = rw eq
eval_step-digit_at (suc (suc (suc (suc zero)))) processor nested s e h eq = rw eq
eval_step-digit_at (suc (suc (suc (suc (suc zero))))) processor nested s e h eq = rw eq
eval_step-digit_at (suc (suc (suc (suc (suc (suc zero)))))) processor nested s e h eq = rw eq
eval_step-digit_at (suc (suc (suc (suc (suc (suc (suc zero))))))) processor nested s e h eq = rw eq
eval_step-digit_at (suc (suc (suc (suc (suc (suc (suc (suc zero)))))))) processor nested s e h eq =
    rw eq
eval_step-digit_at (suc (suc (suc (suc (suc (suc (suc (suc (suc zero))))))))) processor nested s e h
      eq =
    rw eq
eval_step-digit_at (suc (suc (suc (suc (suc (suc (suc (suc (suc (suc d)))))))))) processor nested s
      e h eq =
    absurd (omega arith)

-- At the decimal text of a number below 2 ^ 63, in front of a byte that is no digit, `$`, `x` or
-- `d`, eval reads the whole text and calls stackarg with the number.
pub eval_step-decimal :
    (processor v : ℕ) (nested : Option Evaluator) (s : Bytes) (e : Eval)
    → v < 2 ^ 63
    → Follows (peek s)
    → e.str ≡ decimal v ++ s
    → eval_step processor nested e ≡ number_read v s e
eval_step-decimal processor v nested s e h f eq =
    let l = decimal-Leads v in
    let digit : l.first ≡ 48 + (l.first - 48) = omega (arith, l.lower) in
    let text : e.str ≡ (48 + (l.first - 48)) ∷ (l.others ++ s) =
      eq ∙ ap (λ (t : Bytes). t ++ s) l.splits ∙ ap (λ (d : ℕ). d ∷ (l.others ++ s)) digit in
    eval_step-digit_at (l.first - 48) processor nested (l.others ++ s) e
      (omega (arith, l.lower, l.upper)) text
    ∙ default_step-decimal nested v s e (omega (arith, h)) f eq
