-- ===== src/Expr/Precedence.antt =====
-- What the operator stack of src/exp.c is for: expressions as trees, the tokens by which they are
-- written with brackets where the priorities ask for them, and the calls that eval makes for them.
pub mod Calls
pub mod Settles
pub mod Reads
pub mod Shapes
pub mod Correct
pub mod Misread
pub mod Whole
pub mod Operand
use Prim.Native.Nat.{max}
use dasm.Base.{
  ℕ, ◌+◌, ◌/◌, ◌%◌, Bool, true, false, not, ◌&&◌, ◌||◌, List, [], ◌∷◌, ◌++◌, Option, some, none,
  leb, ◌==◌, if◌then◌else◌, to_nat, bit_and, bit_or, bit_xor,
}
use dasm.Errors.{division_by_0}
use dasm.Expr.Machine.{
  Unary, takelsb, takemsb, invert, Binary, mult, div, modulo, add, sub, shiftleft, shiftright,
  greater, greatereq, smaller, smallereq, eqeq, noteq, andand, oror, xor, and, or, question, Op,
  unary, binary, Arg, Machine,
}
use dasm.Expr.Operators.{shift_count}
use dasm.Expr.Stack.{stackarg, doop, open_bracket, close_bracket}
use dasm.Run.{Run, ok, exit, ◌>>=◌}
use dasm.Word

-- The second argument of doop for each operator, in eval.
unfoldable pub priority : Binary → ℕ
priority mult = 20
priority div = 20
priority modulo = 20
priority question = 10
priority add = 19
priority sub = 19
priority shiftright = 18
priority shiftleft = 18
priority greater = 17
priority greatereq = 17
priority smaller = 17
priority smallereq = 17
priority eqeq = 16
priority noteq = 16
priority and = 15
priority andand = 12
priority xor = 14
priority oror = 11
priority or = 13

pub data Exp : Type 0 where
  number : ℕ → Exp
  prefix : Unary → Exp → Exp
  apply : Binary → Exp → Exp → Exp

pub data Token : Type 0 where
  operand : ℕ → Token
  prefix_op : Unary → Token
  infix_op : Binary → Token
  lbracket rbracket : Token

-- The infix operators that eval reads without a look at Lastwasop.
unfoldable pub infix_anywhere : Binary → Bool
infix_anywhere div = true
infix_anywhere question = true
infix_anywhere add = true
infix_anywhere eqeq = true
infix_anywhere and = true
infix_anywhere andand = true
infix_anywhere xor = true
infix_anywhere oror = true
infix_anywhere or = true
infix_anywhere _ = false

-- The tests of Lastwasop, under which eval reads the characters of a token as that token.
unfoldable pub is_read_as : Token → Bool → Bool
unfolding infix_anywhere
is_read_as (prefix_op u) lastwasop = lastwasop
is_read_as (infix_op b) lastwasop = not lastwasop || infix_anywhere b
is_read_as _ lastwasop = true

-- Behind a bracket, where there is an argument.
unfoldable pub behind_bracket : List Arg → Machine → Machine
behind_bracket [] m = m
behind_bracket (a ∷ r) m = record m { lastwasop = false }

-- What eval calls for a token.
unfoldable pub token_call : Token → Machine → Run Machine
unfolding behind_bracket
token_call (operand v) m = stackarg v 0 m
token_call (prefix_op u) m = doop (unary u) 128 m
token_call (infix_op b) m = doop (binary b) (priority b) m
token_call lbracket m = ok (open_bracket m)
token_call rbracket m = close_bracket m >>= λ m1. ok (behind_bracket m1.args m1)

-- A token that stands apart from the next one, `[` and `]` for the brackets. `none`: its characters
-- are read otherwise, as another operator or, `~`, as a syntax error.
unfoldable pub run_token : Token → Machine → Run (Option Machine)
unfolding is_read_as token_call
run_token t m =
    if is_read_as t m.lastwasop then (token_call t m >>= λ m1. ok (some m1)) else ok none

unfoldable pub run_tokens : List Token → Machine → Run (Option Machine)
unfolding run_token
run_tokens [] m = ok (some m)
run_tokens (t ∷ ts) m =
    run_token t m >>= λ r. elim r [ some m1 ↦ run_tokens ts m1 | none ↦ ok none ]

-- An expression where operators below `p` need brackets. All operators associate to the left.
unfoldable pub tokens : ℕ → Exp → List Token
unfolding priority
tokens p (number v) = operand v ∷ []
tokens p (prefix u e) = prefix_op u ∷ tokens 128 e
tokens p (apply b l r) =
    let body = tokens (priority b) l ++ infix_op b ∷ tokens (priority b + 1) r in
    if leb p (priority b) then body else lbracket ∷ (body ++ rbracket ∷ [])

-- The operators that set Lastwasop behind their call of stackarg.
abbrev pub sets_last : Binary → Bool
sets_last mult = true
sets_last modulo = true
sets_last add = true
sets_last sub = true
sets_last _ = false

-- The first character that is no bracket is that of a prefix operator.
unfoldable pub begins_prefix : Exp → Bool
begins_prefix (number v) = false
begins_prefix (prefix u e) = true
begins_prefix (apply b l r) = begins_prefix l

-- Lastwasop behind the operator that follows the expression: what is worked off last sets or clears it,
-- and it is set where nothing is left to work off. `waits` tells of prefix operators in front.
unfoldable pub leaves_last : Bool → ℕ → Exp → Bool
unfolding priority
leaves_last waits p (number v) = true
leaves_last waits p (prefix u e) = leaves_last true 128 e
leaves_last waits p (apply b l r) = if leb p (priority b) then sets_last b else not waits

-- The prefix operators stand where eval reads them as such: a right operand, with its brackets, begins
-- with one only where the infix operator leaves Lastwasop set.
unfoldable pub is_readable : ℕ → Exp → Bool
unfolding begins_prefix leaves_last
is_readable p (number v) = true
is_readable p (prefix u e) = is_readable 128 e
is_readable p (apply b l r) =
    is_readable (priority b) l
    && is_readable (priority b + 1) r
    && (not (begins_prefix r) || leaves_last false (priority b) l)

unfoldable pub unary_value : Unary → ℕ → ℕ
unfolding Word.shift_right Word.negate Word.invert
unary_value takelsb v = v % 256
unary_value takemsb v = Word.shift_right v 8 % 256
unary_value Unary.negate v = Word.negate v
unary_value invert v = Word.invert v
unary_value Unary.not v = to_nat (v == 0)

divided : (ℕ → ℕ → ℕ) → ℕ → ℕ → Run ℕ
divided f v w = if w == 0 then exit division_by_0 else ok (f v w)

unfoldable pub binary_value : Binary → ℕ → ℕ → Run ℕ
unfolding divided
binary_value mult v w = ok (Word.mul v w)
binary_value div v w = divided Word.divide v w
binary_value modulo v w = divided Word.remainder v w
binary_value question v w = ok (if v == 0 then 0 else w)
binary_value add v w = ok (Word.add v w)
binary_value sub v w = ok (Word.sub v w)
binary_value shiftright v w = ok (Word.shift_right v (shift_count w))
binary_value shiftleft v w = ok (Word.shift_left v (shift_count w))
binary_value greater v w = ok (to_nat (Word.less w v))
binary_value greatereq v w = ok (to_nat (not (Word.less v w)))
binary_value smaller v w = ok (to_nat (Word.less v w))
binary_value smallereq v w = ok (to_nat (not (Word.less w v)))
binary_value eqeq v w = ok (to_nat (v == w))
binary_value noteq v w = ok (to_nat (not (v == w)))
binary_value andand v w = ok (to_nat (not (v == 0) && not (w == 0)))
binary_value oror v w = ok (to_nat (not (v == 0) || not (w == 0)))
binary_value xor v w = ok (bit_xor v w)
binary_value and v w = ok (bit_and v w)
binary_value or v w = ok (bit_or v w)

-- The value of a tree. A division by zero ends the assembly.
unfoldable pub value : Exp → Run ℕ
unfolding unary_value binary_value
value (number v) = ok v
value (prefix u e) = do v ← value e; ok (unary_value u v)
value (apply b l r) = do v ← value l; w ← value r; binary_value b v w

-- The places of Argstack and Opdis that an expression takes at most.
unfoldable pub args_needed : Exp → ℕ
args_needed (number v) = 1
args_needed (prefix u e) = args_needed e
args_needed (apply b l r) = max (args_needed l) (1 + args_needed r)

unfoldable pub ops_needed : ℕ → Exp → ℕ
unfolding priority
ops_needed p (number v) = 0
ops_needed p (prefix u e) = 1 + ops_needed 128 e
ops_needed p (apply b l r) =
    let body = max (ops_needed (priority b) l) (1 + ops_needed (priority b + 1) r) in
    if leb p (priority b) then body else 1 + body
