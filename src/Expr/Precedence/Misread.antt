-- ===== src/Expr/Precedence/Misread.antt =====
-- The tests of Lastwasop in eval, at prefix operators that do not stand where eval expects them.
use Prim.Native.Nat.{max}
use dasm.Base.{
  ℕ, ◌+◌, ◌≤◌, ◌<◌, ◌≡◌, ◌⊎◌, inl, inr, refl, ◌∙◌, Bool, true, false, not, ◌||◌, Option, some, none,
  List, [], ◌∷◌, ◌++◌, arith, leb, length, Bool-cases, leb→le, lt→leb,
}
use dasm.Errors.{AsmError}
use dasm.Expr.Machine.{Unary, Binary, Op, OpCell, Arg, Machine, stale, unspare}
use dasm.Expr.Precedence.Calls.{num, binary_cell, waiting, length-waiting, mk}
use dasm.Expr.Precedence.Settles.{not-reducible-strengthen}
use dasm.Expr.Precedence.Reads.{done, read_prefix, read_infix, read_lbracket, run_tokens-append}
use dasm.Expr.Precedence.Correct.{doop-prefix, run_tokens-Correct}
use dasm.Expr.Precedence.Shapes.{
  priority_bounds, body_tokens, tokens_bare, tokens_bracketed, ops_needed_bare,
  ops_needed_bracketed, doop-Settles,
}
use dasm.Expr.Precedence.{
  Exp, number, prefix, apply, Token, infix_op, rbracket, is_read_as, run_token, run_tokens, tokens,
  value, args_needed, ops_needed, priority, is_readable, begins_prefix, leaves_last,
}
use dasm.Expr.Stack.{reducible, open_bracket, push_op}
use dasm.Run.{Run, ok, exit, panicked, undefined, ◌>>=◌, bind-eq-ok}

-- What run_tokens does with the outcome of a token.
abbrev go_on : Run (Option Machine) → (Machine → Run (Option Machine)) → Run (Option Machine)
go_on r f = r >>= λ x. elim x [ some m ↦ f m | none ↦ ok none ]

go_on-none :
    (r : Run (Option Machine)) (f g : Machine → Run (Option Machine))
    → ((m : Machine) → f m ≡ ok none → g m ≡ ok none)
    → go_on r f ≡ ok none
    → go_on r g ≡ ok none
go_on-none (ok none) f g h e = refl
go_on-none (ok (some m)) f g h e = h m e
go_on-none (exit x) f g h e = cc
go_on-none panicked f g h e = cc
go_on-none undefined f g h e = cc

-- What follows a token that is not read does not matter.
none-append :
    (s t : List Token) (m : Machine) → run_tokens s m ≡ ok none → run_tokens (s ++ t) m ≡ ok none
unfolding run_tokens
none-append [] t m e = cc
none-append (x ∷ s) t m e =
    go_on-none (run_token x m) (run_tokens s) (run_tokens (s ++ t)) (none-append s t) e

-- Somewhere in the expression, or at its front, a prefix operator does not stand where eval reads it as
-- one.
abbrev IsMisread : ℕ → Exp → Bool → Type 0
IsMisread p e lw = (is_readable p e ≡ false) ⊎ ((begins_prefix e ≡ true) × (lw ≡ false))

-- In one of the operands, the first one that has such a place.
IsMisread-operand :
    (b : Binary) (l r : Exp) (p : ℕ) (lw : Bool)
    → IsMisread p (apply b l r) lw
    → IsMisread (priority b) l lw
      ⊎ ((is_readable (priority b) l ≡ true)
          × (begins_prefix l ≡ true → lw ≡ true)
          × IsMisread (priority b + 1) r (leaves_last false (priority b) l))
unfolding is_readable begins_prefix
IsMisread-operand b l r p lw h = elim (Bool-cases (is_readable (priority b) l)) [
  | inr x ↦ inl (inl x)
  | inl x ↦ elim (Bool-cases (not (begins_prefix l) || lw)) [
    | inr y ↦ inl (inr (ground arith, ground arith))
    | inl y ↦ inr (
      x,
      λ k. ground arith,
      elim h [
        | inr z ↦ absurd (ground arith)
        | inl z ↦ elim (Bool-cases (is_readable (priority b + 1) r)) [
          | inr w ↦ inl w
          | inl w ↦ inr (ground arith, ground arith)
        ]
      ],
    )
  ]
]

module _ (ab ob : ℕ) (errs : List AsmError) where
  abbrev Stops : ℕ → Exp → Type 0
  Stops p e =
      (us : List Unary) (args : List Arg) (base : List OpCell) (sp : List (Option Op)) (lw : Bool)
      (v : ℕ)
      → value e ≡ ok v
      → IsMisread p e lw
      → ab + length args + args_needed e ≤ 64
      → ob + length us + length base + ops_needed p e ≤ 32
      → reducible p base ≡ false
      → (us ≡ []) ⊎ (p ≡ 128)
      → run_tokens (tokens p e) (mk ab ob errs args (waiting us base) sp lw) ≡ ok none

  body-Stops :
      (b : Binary) (l r : Exp) (args : List Arg) (base : List OpCell) (sp : List (Option Op))
      (lw : Bool) (v : ℕ)
      → Stops (priority b) l
      → Stops (priority b + 1) r
      → value (apply b l r) ≡ ok v
      → IsMisread (priority b) (apply b l r) lw
      → ab + length args + max (args_needed l) (1 + args_needed r) ≤ 64
      → ob + length base + max (ops_needed (priority b) l) (1 + ops_needed (priority b + 1) r) ≤ 32
      → reducible (priority b) base ≡ false
      → run_tokens (body_tokens b l r) (mk ab ob errs args base sp lw) ≡ ok none
  unfolding value
  body-Stops b l r args base sp lw v hl hr e mis fa fo red =
      let pb = priority_bounds b in
      let (x, ex, e') = bind-eq-ok (value l) _ e in
      let (y, ey, exy) = bind-eq-ok (value r) _ e' in
      elim (IsMisread-operand b l r (priority b) lw mis) [
        | inl left ↦
            none-append (tokens (priority b) l) _ _
              (hl [] args base sp lw x ex left (omega arith) (omega arith) red (inl refl))
        | inr (rl, first, right) ↦
            let (m1, run1, lw1, s1) =
              run_tokens-Correct ab ob errs l (priority b) (omega (arith, pb)) [] args base sp lw x
                ex rl first (omega arith) (omega arith) red (inl refl) in
            let (sp2, run2) =
              doop-Settles ab ob errs b (priority b) m1 (omega (arith, pb)) red (omega arith) s1 in
            run_tokens-append (infix_op b ∷ tokens (priority b + 1) r) run1
            ∙ run_tokens-append (tokens (priority b + 1) r) (read_infix lw1 run2 done)
            ∙ hr [] (num x ∷ args) (binary_cell b (priority b) ∷ base) sp2
                (leaves_last false (priority b) l) y ey right (omega arith) (omega arith)
                (ground arith) (inl refl)
      ]

  number-Stops : (n p : ℕ) → Stops p (number n)
  unfolding is_readable begins_prefix
  number-Stops n p us args base sp lw v e (inl h) fa fo red w = cc
  number-Stops n p us args base sp lw v e (inr h) fa fo red w = cc

  prefix-Stops : (u : Unary) (x : Exp) (p : ℕ) → p ≤ 128 → Stops 128 x → Stops p (prefix u x)
  unfolding tokens value args_needed ops_needed is_readable begins_prefix
  prefix-Stops u x p k hx us args base sp false v e mis fa fo red w =
      unfold run_tokens in unfold run_token in unfold is_read_as in refl
  prefix-Stops u x p k hx us args base sp true v e (inr mis) fa fo red w = cc
  prefix-Stops u x p k hx us args base sp true v e (inl mis) fa fo red w =
      let (y, ey, eq) = bind-eq-ok (value x) _ e in
      run_tokens-append (tokens 128 x) (
        read_prefix refl
          (doop-prefix ab ob errs u args (waiting us base) sp true
            (omega (arith, length-waiting us base)))
          done)
      ∙ hx (u ∷ us) args base (unspare sp) true y ey (inl mis) fa (omega arith)
          (not-reducible-strengthen p 128 base k red) (inr refl)

  bare-Stops :
      (b : Binary) (l r : Exp) (p : ℕ)
      → leb p (priority b) ≡ true
      → Stops (priority b) l
      → Stops (priority b + 1) r
      → Stops p (apply b l r)
  unfolding args_needed is_readable
  bare-Stops b l r p bare hl hr [] args base sp lw v e mis fa fo red w =
      rw (tokens_bare b l r p bare) (
        body-Stops b l r args base sp lw v hl hr e mis fa
          (omega (arith, ops_needed_bare b l r p bare))
          (not-reducible-strengthen p (priority b) base (leb→le p (priority b) bare) red))
  bare-Stops b l r p bare hl hr (u ∷ us) args base sp lw v e mis fa fo red (inl w) = cc
  bare-Stops b l r p bare hl hr (u ∷ us) args base sp lw v e mis fa fo red (inr w) =
      absurd (omega (arith, leb→le p (priority b) bare, priority_bounds b))

  opened :
      (args : List Arg) (ops : List OpCell) (sp : List (Option Op)) (lw : Bool)
      → ob + length ops < 32
      → open_bracket (mk ab ob errs args ops sp lw)
        ≡ mk ab ob errs args (record { op = stale sp; pri = 0 } ∷ ops) (unspare sp) lw
  unfolding open_bracket push_op
  opened args ops sp lw h = rw (lt→leb 32 (ob + length ops) h) refl

  bracketed-Stops :
      (b : Binary) (l r : Exp) (p : ℕ)
      → leb p (priority b) ≡ false
      → Stops (priority b) l
      → Stops (priority b + 1) r
      → Stops p (apply b l r)
  unfolding args_needed is_readable
  bracketed-Stops b l r p bracketed hl hr us args base sp lw v e mis fa fo red w =
      let n = length-waiting us base in
      let need = ops_needed_bracketed b l r p bracketed in
      rw (tokens_bracketed b l r p bracketed) (
        run_tokens-append (body_tokens b l r ++ rbracket ∷ []) (read_lbracket done)
        ∙ (none-append (body_tokens b l r) (rbracket ∷ []) _ (
            rw (opened args (waiting us base) sp lw (omega arith)) (
              body-Stops b l r args (record { op = stale sp; pri = 0 } ∷ waiting us base)
                (unspare sp) lw v hl hr e mis fa (omega arith) refl))))

  -- The tokens up to that operator are read, and there eval reads something else.
  pub run_tokens-Stops : (e : Exp) (p : ℕ) → p ≤ 128 → Stops p e
  run_tokens-Stops (number n) p k = number-Stops n p
  run_tokens-Stops (prefix u x) p k = prefix-Stops u x p k (run_tokens-Stops x 128 (omega arith))
  run_tokens-Stops (apply b l r) p k =
      let hl = run_tokens-Stops l (priority b) (omega (arith, priority_bounds b)) in
      let hr = run_tokens-Stops r (priority b + 1) (omega (arith, priority_bounds b)) in
      elim (Bool-cases (leb p (priority b))) [
        | inl bare ↦ bare-Stops b l r p bare hl hr
        | inr bracketed ↦ bracketed-Stops b l r p bracketed hl hr
      ]
