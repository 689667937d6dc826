-- ===== src/Expr/Precedence/Whole.antt =====
-- What eval makes of the tokens of a whole expression.
use dasm.Base.{
  ℕ, ◌+◌, ◌≤◌, ◌≡◌, refl, inl, inr, Bool, true, false, Option, some, none, List, [], ◌∷◌, arith,
  length, Bool-cases,
}
use dasm.Errors.{AsmError}
use dasm.Expr.Machine.{Op, Machine}
use dasm.Expr.Precedence.Calls.{num, mk}
use dasm.Expr.Precedence.Settles.{Settles-with_last, flush-Settles}
use dasm.Expr.Precedence.Reads.{Reads-run_tokens}
use dasm.Expr.Precedence.Correct.{run_tokens-Correct}
use dasm.Expr.Precedence.Misread.{run_tokens-Stops}
use dasm.Expr.Precedence.{Exp, run_tokens, tokens, value, args_needed, ops_needed, is_readable}
use dasm.Expr.Stack.{flush}
use dasm.Run.{Run, ok}

-- What the tokens of an expression of value `v` come to, by whether its prefix operators stand where
-- eval reads them as such: evaltop until Opi is Opibase leaves `v` as the one argument and no operator;
-- or one of them is not read as the operator that it is.
pub data Evaluated (v argibase opibase : ℕ) (errors : List AsmError) (run : Run (Option Machine))
    : Bool → Type 0 where
  evaluated :
      (m : Machine) (spare : List (Option Op)) (lw : Bool)
      → run ≡ ok (some m)
      → flush (length m.ops) m ≡ ok (mk argibase opibase errors (num v ∷ []) [] spare lw)
      → Evaluated v argibase opibase errors run true
  misread : run ≡ ok none → Evaluated v argibase opibase errors run false

-- From empty stacks and with Lastwasop set, as eval begins, whatever Opdis held before, for an
-- expression that has a value and fits the stacks that the outer calls of eval have left: if its
-- prefix operators stand where Lastwasop is set, all tokens are read as such, and calling evaltop until
-- Opi is Opibase then leaves the value of the expression as the one argument and no operator; else
-- eval reads one of the prefix operators as something else.
pub flush-run_tokens :
    (e : Exp) (v argibase opibase : ℕ) (errors : List AsmError) (spare : List (Option Op))
    → value e ≡ ok v
    → argibase + args_needed e ≤ 64
    → opibase + ops_needed 1 e ≤ 32
    → Evaluated v argibase opibase errors
        (run_tokens (tokens 1 e) (mk argibase opibase errors [] [] spare true))
        (is_readable 1 e)
flush-run_tokens e v ab ob errs sp h fa fo = elim (Bool-cases (is_readable 1 e)) [
  | inl readable ↦
      let (m, run, last, s) =
        run_tokens-Correct ab ob errs e 1 (omega arith) [] [] [] sp true v h readable (λ k. refl)
          (omega arith) (omega arith) refl (inl refl) in
      let (lw, s') = Settles-with_last ab ob errs m.lastwasop s in
      let (sp', flushed) = flush-Settles ab ob errs 1 (length m.ops) (omega arith) s' in
      rw readable (evaluated m sp' lw (Reads-run_tokens run) flushed)
  | inr unreadable ↦ rw unreadable (
      misread (
        run_tokens-Stops ab ob errs e 1 (omega arith) [] [] [] sp true v h (inl unreadable)
          (omega arith) (omega arith) refl (inl refl)))
]
