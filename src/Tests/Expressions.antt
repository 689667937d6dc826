-- ===== src/Tests/Expressions.antt =====
-- The theorems on expressions at concrete inputs.
use dasm.Base.{◌≡◌, refl, true, false, Option, none, List, [], ◌∷◌, ◌++◌, codes, arith}
use dasm.Base.Decimal.{decimal}
use dasm.Expr.Eval.{Eval, Statics}
use dasm.Expr.Machine.{binary, Unary, Binary, mult, greater, Op}
use dasm.Expr.Precedence.{
  is_readable, leaves_last, begins_prefix, priority, binary_value, Exp, number, prefix, apply,
  tokens, value, run_tokens, args_needed, ops_needed,
}
use dasm.Expr.Precedence.Calls.{binary_cell, mk, num}
use dasm.Expr.Precedence.Whole.{Evaluated, flush-run_tokens}
use dasm.Expr.Precedence.Operand.{doop-sets_last}
use dasm.Expr.Stack.{flush, doop}
use dasm.Expr.Steps.{eval_step, start}
use dasm.Expr.Steps.Numbers.{eval_step-decimal, number_read}
use dasm.Run.{ok}
use dasm.Word.{less, mul, add}
use dasm.Tests.{globals}

-- -(2 + 3) * 7 > -4
abbrev sample : Exp
sample =
    apply greater
      (apply mult (prefix Unary.negate (apply Binary.add (number 2) (number 3))) (number 7))
      (prefix Unary.negate (number 4))

sample_value : value sample ≡ ok 0
unfolding value less mul add
sample_value = refl

flush-run_tokens_example :
    Evaluated 0 3 2 []
      (run_tokens (tokens 1 sample) (mk 3 2 [] [] [] [] true))
      (is_readable 1 sample)
unfolding args_needed ops_needed
flush-run_tokens_example =
    flush-run_tokens sample 0 3 2 [] [] sample_value (omega arith) (omega arith)

-- Behind `*`, which sets Lastwasop, the second `-` is a prefix operator.
sample_readable : is_readable 1 sample ≡ true
unfolding is_readable leaves_last begins_prefix
sample_readable = refl

-- 1 & 2 | ~3, where eval reports a syntax error at `~`
abbrev misread : Exp
misread = apply Binary.or (apply Binary.and (number 1) (number 2)) (prefix Unary.invert (number 3))

not_read_as_written :
    (is_readable 1 misread ≡ false)
    × (run_tokens (tokens 1 misread) (mk 0 0 [] [] [] [] true) ≡ ok none)
unfolding run_tokens is_readable leaves_last begins_prefix tokens dasm.Expr.Stack.stackarg doop
    dasm.Expr.Operators.op_binary
not_read_as_written = (refl, refl)

abbrev pub statics : Statics
statics = record { argi = 0; opi = 0; spare = []; indexed = false; recursion = 0 }

abbrev at_number : Eval
at_number = start statics globals (decimal 6502 ++ codes "+1") false

eval_step-decimal_example : eval_step 6502 none at_number ≡ number_read 6502 (codes "+1") at_number
eval_step-decimal_example =
    eval_step-decimal 6502 6502 none (codes "+1") at_number (omega arith)
      (refl, omega arith, omega arith, omega arith) refl

doop-sets_last_example :
    (sp' : List (Option Op)) × (doop
        (binary Binary.or)
        (priority Binary.or)
        (mk 0 0 [] (num 2 ∷ num 1 ∷ []) (binary_cell greater (priority greater) ∷ []) [] false)
      ≡ ok (mk 0 0 [] (num 0 ∷ []) (binary_cell Binary.or (priority Binary.or) ∷ []) sp' false))
doop-sets_last_example =
    doop-sets_last 0 0 [] Binary.or greater 1 2 0 [] false (omega arith) (omega arith)
      (unfold priority in omega arith) (unfold binary_value in unfold less in refl)
