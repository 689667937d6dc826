-- ===== src/Expr/Steps.antt =====
-- The cases of the switch in eval of src/exp.c, its loop and what follows it.
pub mod Numbers
use dasm.Base.{
  ℕ, zero, suc, ◌+◌, ◌-◌, ◌%◌, Bool, true, false, not, ◌&&◌, ◌||◌, Option, none, some, List, [],
  ◌∷◌, ◌++◌, Bytes, codes, peek, drop, length, ltb, leb, ◌==◌, if◌then◌else◌,
}
use mathlib.Core.List.{reverse}
use dasm.Base.Decimal.{decimal}
use dasm.Errors.{syntax_error}
use dasm.Expr.Eval.{
  Eval, Evaluator, Statics, blank_symbol, advance, on_machine, complain, bad_mode, set_mode, lower,
  at, op_step, symbol_step, number_step, pushsymbol, to_statics, to_globals,
}
use dasm.Expr.Literals.{
  hex_digit, oct_digit, dec_digit, bin_digit, scan_rest, char_value, after_quote, is_alpha_num,
}
use dasm.Expr.Machine.{
  takelsb, takemsb, invert, mult, div, modulo, add, sub, shiftleft, shiftright, greater, greatereq,
  smaller, smallereq, eqeq, noteq, andand, oror, xor, and, or, question, Unary, Op, unary, binary,
  Arg, Machine,
}
use dasm.Expr.Precedence.{priority}
use dasm.Expr.Stack.{stackarg, stackarg_string, flush, open_bracket, close_bracket}
use dasm.Modes.{
  am_imm8, am_byteadr, am_byteadrx, am_byteadry, am_byterel, am_indbytex, am_indbytey, am_indword,
  am_indbyte, am_0x, am_0y, am_byteadr_sp,
}
use dasm.Run.{Run, ok, undefined, ◌>>=◌}
use dasm.State.{Symbol, Globals, with_bit, sym_string}
use dasm.Word.{is_negative, word_size}

abbrev expects_operand : Eval → Bool
expects_operand e = e.machine.lastwasop

-- An operator with one meaning: the second argument is the priority that eval writes.
abbrev infix_step : dasm.Expr.Machine.Binary → ℕ → Eval → Run Eval
infix_step b = op_step (binary b) (priority b)

-- case '~' to case '-'
unfoldable pub arithmetic_step : Option Evaluator → ℕ → Eval → Run Eval
unfolding priority pushsymbol
arithmetic_step nested c e =
    if c == b'~'
    then (if expects_operand e
        then op_step (unary invert) 128 1 e
        else ok (advance 1 (complain syntax_error e)))
    else if c == b'*'
    then (if expects_operand e
        then (pushsymbol nested (codes ".") e >>= λ r. ok (advance 1 r.0))
        else infix_step mult 1 e)
    else if c == b'/'
    then infix_step div 1 e
    else if c == b'%'
    then (if expects_operand e then number_step bin_digit 2 1 e else infix_step modulo 1 e)
    else if c == b'?'
    then infix_step question 1 e
    else if c == b'+'
    then infix_step add 1 e
    else if expects_operand e
    then op_step (unary Unary.negate) 128 1 e
    else infix_step sub 1 e

-- case '>' to case '!'
unfoldable pub comparison_step : ℕ → Eval → Run Eval
unfolding priority
comparison_step c e =
    if c == b'>'
    then (if expects_operand e
        then op_step (unary takemsb) 128 1 e
        else if at 1 e == b'>'
        then infix_step shiftright 2 e
        else if at 1 e == b'='
        then infix_step greatereq 2 e
        else infix_step greater 1 e)
    else if c == b'<'
    then (if expects_operand e
        then op_step (unary takelsb) 128 1 e
        else if at 1 e == b'<'
        then infix_step shiftleft 2 e
        else if at 1 e == b'='
        then infix_step smallereq 2 e
        else infix_step smaller 1 e)
    else if c == b'='
    then (if at 1 e == b'=' then infix_step eqeq 2 e else infix_step eqeq 1 e)
    else if expects_operand e
    then op_step (unary Unary.not) 128 1 e
    else infix_step noteq 2 e

-- case '&' to case '|'
unfoldable pub logic_step : ℕ → Eval → Run Eval
unfolding priority
logic_step c e =
    if c == b'&'
    then (if at 1 e == b'&' then infix_step andand 2 e else infix_step and 1 e)
    else if c == b'^'
    then infix_step xor 1 e
    else if at 1 e == b'|'
    then infix_step oror 2 e
    else infix_step or 1 e

-- [X+255], [Y+3] and [SP+5] for the processors that have them.
abbrev is_indexed : ℕ → Eval → Bool
is_indexed processor e =
    (((lower (at 1 e) == b'x' || lower (at 1 e) == b'y') && at 2 e == b'+')
      || (lower (at 1 e) == b's' && lower (at 2 e) == b'p' && at 3 e == b'+'))
    && (processor == 68705 || processor == 6811 || processor == 68908)

-- case '(' and case '['
unfoldable pub open_step : ℕ → ℕ → Eval → Eval
unfolding open_bracket
open_step processor c e0 =
    let e = record e0 { indexed = is_indexed processor e0 } in
    if c == b'(' && e0.wantmode
    then advance 1 (set_mode am_indword e0)
    else if is_indexed processor e0
    then (if lower (at 1 e) == b'x'
        then advance 3 (set_mode am_byteadrx e)
        else if lower (at 1 e) == b'y'
        then advance 3 (set_mode am_byteadry e)
        else advance 4 (set_mode am_byteadr_sp e))
    else (let m = e.machine in advance 1 (record e { machine = open_bracket m }))

-- The argument on top as a decimal string, for `d` behind a bracket, if its value is known.
unfoldable pub to_decimal : ℕ → Bytes
to_decimal v = if is_negative v then b'-' ∷ decimal (word_size - v) else decimal v

convert_top : List Arg → Eval → Run Eval
unfolding to_decimal
convert_top [] e = undefined
convert_top (a ∷ r) e =
    let m = e.machine in
    ok (
      if a.flags == 0
      then record e {
        machine = record m { args = record a { string = some (to_decimal a.value) } ∷ r };
      }
      else e)

abbrev operand_done : Eval → Run Eval
operand_done e = let m = e.machine in ok (record e { machine = record m { lastwasop = false } })

abbrev no_args : List Arg → Bool
no_args [] = true
no_args (a ∷ r) = false

-- case ']': an expression in brackets, with its conversion to a string.
unfoldable pub close_step : Eval → Run Eval
unfolding close_bracket convert_top
close_step e0 = on_machine close_bracket e0 >>= λ e1.
    let e = advance 1 (record e1 { indexed = false }) in
    if not e1.indexed && no_args e1.machine.args
    then ok e
    else if peek e.str == b'd'
    then (convert_top e.machine.args (advance 1 e) >>= operand_done)
    else operand_done e

-- case ')' where an addressing mode is wanted
unfoldable pub paren_step : ℕ → Eval → Eval
paren_step processor e0 =
    let indirect = e0.cur.addrmode == am_indword in
    let by_y = indirect && at 1 e0 == b',' && lower (at 2 e0) == b'y' in
    let e = if by_y then advance 2 (set_mode am_indbytey e0) else e0 in
    let by_x = e.cur.addrmode == am_indword && at 1 e == b',' && lower (at 2 e) == b'x' in
    let e' = if by_x then bad_mode e else e in
    advance 1 (
      if e'.cur.addrmode == am_indword && at 1 e' == 0 && processor == 16502
      then set_mode am_indbyte e'
      else e')

-- The symbol that the argument on top becomes: --Argi; cur->value = Argstack[Argi]; ...
abbrev symbol_of : Arg → Symbol → Symbol
symbol_of a s = record s {
  value = a.value;
  flags = elim a.string [ none ↦ a.flags | some _ ↦ with_bit a.flags sym_string ];
  string = a.string;
}

-- A new symbol behind `cur`, which gets the argument on top. With no argument the code reads and
-- then writes in front of its part of the stack.
finish_symbol : List Arg → Eval → Run Eval
finish_symbol [] e = undefined
finish_symbol (a ∷ r) e =
    let m = e.machine in
    ok (record e {
      machine = record m { args = r };
      finished = symbol_of a e.cur ∷ e.finished;
      cur = blank_symbol;
    })

-- case ','
unfoldable pub comma_step : ℕ → Eval → Run Eval
unfolding flush finish_symbol
comma_step processor e0 = on_machine (λ m. flush (length m.ops) m) e0 >>= λ e1.
    let m1 = e1.machine in
    let e = record e1 { machine = record m1 { lastwasop = true } } in
    let scr = lower (at 1 e) in
    let indirect = e.cur.addrmode == am_indword in
    if indirect && scr == b'x' && not (is_alpha_num (at 2 e))
    then ok (advance 2 (set_mode am_indbytex e))
    else if not indirect && not (scr == b'x') && not (scr == b'y') && processor == 16502
    then (finish_symbol e.machine.args (set_mode am_byterel e) >>= λ e'. ok (advance 1 e'))
    else if indirect && scr == b'y' && at 2 e == b')' && e.wantmode
    then ok (advance 2 (set_mode am_0y (bad_mode e)))
    else if scr == b'x' && not (is_alpha_num (at 2 e))
    then ok (advance 2 (set_mode am_0x e))
    else if scr == b'y' && not (is_alpha_num (at 2 e))
    then ok (advance 2 (set_mode am_0y e))
    else if scr == b's' && lower (at 2 e) == b'p' && not (is_alpha_num (at 3 e))
    then ok (advance 3 (set_mode am_byteadr_sp e))
    else (finish_symbol e.machine.args
          (if ltb 1 (length e.machine.args) then complain syntax_error e else e)
        >>= λ e'. ok (advance 1 e'))

-- case '\'' : pushchar
unfoldable pub char_step : Bytes → Eval → Run Eval
unfolding stackarg char_value
char_step [] e = on_machine (stackarg b' ' 0) (record e { str = [] })
char_step (c ∷ s) e = on_machine (stackarg (char_value c) 0) (record e { str = s })

-- case '\"' : pushstr
unfoldable pub string_step : Bytes → Eval → Run Eval
unfolding stackarg_string after_quote
string_step s e = on_machine (stackarg_string s) (record e { str = after_quote s })

-- default: numbers and symbols.
unfoldable pub default_step : Option Evaluator → Eval → Run Eval
unfolding symbol_step number_step
default_step nested e =
    let c = peek e.str in
    if peek (scan_rest dec_digit e.str) == b'$'
    then symbol_step nested e
    else if c == b'0'
    then (if at 1 e == b'x' then number_step hex_digit 16 2 e else number_step oct_digit 8 0 e)
    else if leb b'1' c && leb c b'9'
    then number_step dec_digit 10 0 e
    else symbol_step nested e

-- The switch, for the character at `str`.
unfoldable pub eval_step : ℕ → Option Evaluator → Eval → Run Eval
unfolding arithmetic_step comparison_step logic_step open_step close_step paren_step comma_step
    char_step string_step default_step number_step
eval_step processor nested e =
    let c = peek e.str in
    if c == b' ' || c == b'\n'
    then ok (advance 1 e)
    else if c == b'~' || c == b'*' || c == b'/' || c == b'%' || c == b'?' || c == b'+' || c == b'-'
    then arithmetic_step nested c e
    else if c == b'>' || c == b'<' || c == b'=' || c == b'!'
    then comparison_step c e
    else if c == b'&' || c == b'^' || c == b'|'
    then logic_step c e
    else if c == b'(' || c == b'['
    then ok (open_step processor c e)
    else if c == b')' && e.wantmode
    then ok (paren_step processor e)
    else if c == b')' || c == b']'
    then close_step e
    else if c == b'#'
    then ok (advance 1 (set_mode am_imm8 (record e { wantmode = false })))
    else if c == b','
    then comma_step processor e
    else if c == b'$'
    then number_step hex_digit 16 1 e
    else if c == b'\''
    then char_step (drop 1 e.str) e
    else if c == b'"'
    then string_step (drop 1 e.str) e
    else default_step nested e

-- while (*str); every step reads a character, so the length of the text is enough fuel.
unfoldable pub eval_loop : ℕ → ℕ → Option Evaluator → Eval → Run Eval
unfolding eval_step
eval_loop zero processor nested e = ok e
eval_loop (suc n) processor nested e = elim (peek e.str == 0) [
  | true ↦ ok e
  | false ↦ eval_step processor nested e >>= eval_loop n processor nested
]

-- The last argument becomes the last symbol.
last_symbol : List Arg → Eval → Eval
last_symbol [] e = e
last_symbol (a ∷ r) e =
    let m = e.machine in record e { machine = record m { args = r }; cur = symbol_of a e.cur }

-- base->addrmode, for an expression with a last argument.
base_mode : ℕ → List Symbol → List Symbol
base_mode cur_mode [] = []
base_mode cur_mode (s ∷ r) =
    (if s.addrmode == 0
      then (record s { addrmode = if cur_mode == am_byterel then am_byterel else am_byteadr })
      else s)
    ∷ r

-- What stands behind the loop: the list of symbols, the static variables and the globals.
unfoldable pub eval_end : Eval → Run (List Symbol × Statics × Globals)
unfolding flush last_symbol base_mode
eval_end e0 = on_machine (λ m. flush (length m.ops) m) e0 >>= λ e1.
    let e = last_symbol e1.machine.args e1 in
    let symbols = reverse (e.cur ∷ e.finished) in
    let e' = if no_args e.machine.args then e else complain syntax_error e in
    let m = e'.machine in
    ok (
      (if no_args e1.machine.args then symbols else base_mode e.cur.addrmode symbols),
      to_statics (record e' { machine = record m { args = [] } }),
      to_globals e',
    )

-- The variables at the start of a call.
abbrev pub start : Statics → Globals → Bytes → Bool → Eval
start st g str wantmode = record {
  machine = record {
    args = [];
    ops = [];
    spare = st.spare;
    argibase = st.argi;
    opibase = st.opi;
    lastwasop = true;
    errors = g.errors;
  };
  globals = g;
  str = str;
  wantmode = wantmode;
  finished = [];
  cur = blank_symbol;
  indexed = st.indexed;
  recursion = st.recursion;
}

-- eval, with `depth` calls for macro symbols inside one another. The 1001st is stopped by
-- pushsymbol, so eval_at 1000 is the function.
unfoldable pub eval_at : ℕ → ℕ → Evaluator
unfolding eval_loop eval_end
eval_at zero processor st g str wantmode =
    eval_loop (length str) processor none (start st g str wantmode) >>= eval_end
eval_at (suc depth) processor st g str wantmode =
    eval_loop (length str) processor (some (eval_at depth processor)) (start st g str wantmode)
    >>= eval_end

unfoldable pub eval : ℕ → Evaluator
unfolding eval_at
eval = eval_at 1000
