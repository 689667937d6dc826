-- ===== src/Expr/Precedence/Reads.antt =====
-- Runs over tokens, with what a reader of their characters has to know of each state.
use dasm.Base.{◌∙◌, ap, sym, append-nil, some, true, ℕ, ◌≡◌, refl, false, List, [], ◌∷◌, ◌++◌}
use dasm.Expr.Machine.{Unary, Binary, unary, binary, Arg, Machine}
use dasm.Expr.Precedence.{
  Token, operand, prefix_op, infix_op, lbracket, rbracket, is_read_as, token_call, run_token,
  run_tokens, priority,
}
use dasm.Expr.Stack.{stackarg, doop, open_bracket, close_bracket}
use dasm.Run.{ok}

-- The calls for the tokens lead from one state to the other. In front of a prefix operator
-- Lastwasop is 1, in front of an infix operator it is 0, and a closing bracket finds an argument.
pub data Reads : List Token → Machine → Machine → Type 0 where
  done : {m : Machine} → Reads [] m m
  read_operand :
      {v : ℕ} {ts : List Token} {m m1 m2 : Machine}
      → stackarg v 0 m ≡ ok m1
      → Reads ts m1 m2
      → Reads (operand v ∷ ts) m m2
  read_prefix :
      {u : Unary} {ts : List Token} {m m1 m2 : Machine}
      → m.lastwasop ≡ true
      → doop (unary u) 128 m ≡ ok m1
      → Reads ts m1 m2
      → Reads (prefix_op u ∷ ts) m m2
  read_infix :
      {b : Binary} {ts : List Token} {m m1 m2 : Machine}
      → m.lastwasop ≡ false
      → doop (binary b) (priority b) m ≡ ok m1
      → Reads ts m1 m2
      → Reads (infix_op b ∷ ts) m m2
  read_lbracket :
      {ts : List Token} {m m2 : Machine} → Reads ts (open_bracket m) m2 → Reads (lbracket ∷ ts) m m2
  read_rbracket :
      {ts : List Token} {m m1 m2 : Machine} (a : Arg) (r : List Arg)
      → close_bracket m ≡ ok m1
      → m1.args ≡ a ∷ r
      → Reads ts (record m1 { lastwasop = false }) m2
      → Reads (rbracket ∷ ts) m m2

pub Reads-append :
    {s t : List Token} {m m1 m2 : Machine} → Reads s m m1 → Reads t m1 m2 → Reads (s ++ t) m m2
Reads-append done b = b
Reads-append (read_operand e a) b = read_operand e (Reads-append a b)
Reads-append (read_prefix l e a) b = read_prefix l e (Reads-append a b)
Reads-append (read_infix l e a) b = read_infix l e (Reads-append a b)
Reads-append (read_lbracket a) b = read_lbracket (Reads-append a b)
Reads-append (read_rbracket x r e f a) b = read_rbracket x r e f (Reads-append a b)

run_tokens-cons :
    (t : Token) (ts : List Token) (m : Machine) {m1 : Machine}
    → is_read_as t m.lastwasop ≡ true
    → token_call t m ≡ ok m1
    → run_tokens (t ∷ ts) m ≡ run_tokens ts m1
unfolding run_tokens run_token
run_tokens-cons t ts m r e = rw (r, e) refl

-- What run_tokens does behind tokens that are read.
pub run_tokens-append :
    {s : List Token} {m m1 : Machine} (t : List Token)
    → Reads s m m1
    → run_tokens (s ++ t) m ≡ run_tokens t m1
unfolding token_call is_read_as
run_tokens-append t done = refl
run_tokens-append t (read_operand {v} {ts} {m} e a) =
    run_tokens-cons (operand v) (ts ++ t) m refl e ∙ run_tokens-append t a
run_tokens-append t (read_prefix {u} {ts} {m} l e a) =
    run_tokens-cons (prefix_op u) (ts ++ t) m l e ∙ run_tokens-append t a
run_tokens-append t (read_infix {b} {ts} {m} l e a) =
    run_tokens-cons (infix_op b) (ts ++ t) m (rw l refl) e ∙ run_tokens-append t a
run_tokens-append t (read_lbracket {ts} {m} a) =
    run_tokens-cons lbracket (ts ++ t) m refl refl ∙ run_tokens-append t a
run_tokens-append t (read_rbracket {ts} {m} x r e f a) =
    run_tokens-cons rbracket (ts ++ t) m refl (rw (e, f) refl) ∙ run_tokens-append t a

pub Reads-run_tokens :
    {ts : List Token} {m m2 : Machine} → Reads ts m m2 → run_tokens ts m ≡ ok (some m2)
Reads-run_tokens {ts} {m} {m2} a =
    ap (λ (l : List Token). run_tokens l m) (sym (append-nil ts))
    ∙ run_tokens-append [] a
    ∙ unfold run_tokens in refl
