-- ===== src/Expr/Stack.antt =====
-- evaltop, stackarg and doop of src/exp.c, and the loops over evaltop.
use dasm.Base.{
  ℕ, zero, suc, ◌+◌, ◌*◌, ◌%◌, Bool, true, false, not, ◌&&◌, ◌||◌, Option, none, some, List, [],
  ◌∷◌, Bytes, leb, ◌==◌, if◌then◌else◌, length,
}
use dasm.Errors.{syntax_error, expression_table_overflow, recursion_too_deep, avoid_segfault}
use dasm.Expr.Machine.{
  Op, unary, binary, Arg, OpCell, Machine, asmerr, args_full, ops_full, unspare, stale,
}
use dasm.Expr.Operators.{Stackarg, op_unary, op_binary}
use dasm.Run.{Run, ok, exit, undefined, ◌>>=◌}
use dasm.Word.{word_size}

-- A unary operator with one argument popped. A function called through a pointer of another type,
-- which a stale entry of Opdis under an open bracket can bring about, has no defined behaviour.
call_unary : Stackarg → Op → List Arg → Machine → Run Machine
call_unary st o [] m = ok (asmerr syntax_error m)
call_unary st (unary u) (a ∷ r) m = op_unary st u a.value a.flags (record m { args = r })
call_unary st (binary b) (a ∷ r) m = undefined

call_binary : Stackarg → Op → List Arg → Machine → Run Machine
call_binary st (binary b) (y ∷ x ∷ r) m =
    op_binary st b x.value y.value x.flags y.flags (record m { args = r })
call_binary st (unary u) (y ∷ x ∷ r) m = undefined
call_binary st o r m = ok (record (asmerr syntax_error m) { args = [] })

call_op : Stackarg → Option Op → ℕ → Machine → Run Machine
unfolding call_unary call_binary
call_op st none pri m = exit avoid_segfault
call_op st (some o) pri m =
    if pri == 128 then call_unary st o m.args m else call_binary st o m.args m

evaltop_on : Stackarg → List OpCell → Machine → Run Machine
unfolding call_op
evaltop_on st [] m = ok (asmerr syntax_error m)
evaltop_on st (c ∷ cs) m = call_op st c.op c.pri (record m { ops = cs; spare = c.op ∷ m.spare })

-- evaltop, over the stackarg that the operators call.
unfoldable pub evaltop_with : Stackarg → Machine → Run Machine
unfolding evaltop_on
evaltop_with st m = evaltop_on st m.ops m

-- The bytes up to the closing quote, and the value that stackarg builds of them.
unfoldable pub quoted : Bytes → Bytes
quoted [] = []
quoted (c ∷ s) = if c == b'"' then [] else c ∷ quoted s

unfoldable pub string_value : ℕ → Bytes → ℕ
string_value val [] = val
string_value val (c ∷ s) = string_value ((val * 256) % word_size + c) s

-- stackarg up to its loop; `s` is the string when SYM_STRING is in the flags.
unfoldable pub push_arg : Arg → Machine → Run Machine
push_arg a m =
    if args_full m
    then exit expression_table_overflow
    else ok (record m { args = a ∷ m.args; lastwasop = false })

abbrev pub top_unary : List OpCell → Bool
top_unary [] = false
top_unary (c ∷ cs) = c.pri == 128

-- while (Opi != Opibase && Oppri[Opi - 1] == 128) evaltop (); on fuel. The operators that it
-- calls call stackarg in their turn.
unfoldable pub drain : ℕ → Machine → Run Machine
unfolding evaltop_with push_arg
drain zero m = ok m
drain (suc n) m = elim (top_unary m.ops) [
  | true ↦
      evaltop_with
        (λ v f m1. push_arg (record { value = v; flags = f; string = none }) m1 >>= drain n) m
      >>= drain n
  | false ↦ ok m
]

-- Each round pops an operator, so their number is enough fuel.
unfoldable pub stackarg : Stackarg
unfolding drain
stackarg v f m =
    push_arg (record { value = v; flags = f; string = none }) m >>= drain (length m.ops)

-- stackarg (0, SYM_STRING, str)
unfoldable pub stackarg_string : Bytes → Machine → Run Machine
unfolding drain quoted string_value
stackarg_string str m =
    let s = quoted str in
    push_arg (record { value = string_value 0 s; flags = 0; string = some s }) m
    >>= drain (length m.ops)

unfoldable pub evaltop : Machine → Run Machine
unfolding stackarg
evaltop = evaltop_with stackarg

-- while (Opi != Opibase && Oppri[Opi - 1] && pri <= Oppri[Opi - 1]) evaltop (); on fuel. The loop
-- at a closing bracket is this one for pri = 0.
abbrev pub reducible : ℕ → List OpCell → Bool
reducible pri [] = false
reducible pri (c ∷ cs) = not (c.pri == 0) && leb pri c.pri

unfoldable pub reduce : ℕ → ℕ → Machine → Run Machine
unfolding evaltop
reduce zero pri m = ok m
reduce (suc n) pri m = elim (reducible pri m.ops) [
  | true ↦ evaltop m >>= reduce n pri
  | false ↦ ok m
]

unfoldable pub push_op : Option Op → ℕ → Machine → Machine
push_op o pri m = record m { ops = record { op = o; pri = pri } ∷ m.ops; spare = unspare m.spare }

abbrev pub no_ops : List OpCell → Bool
no_ops [] = true
no_ops (c ∷ cs) = false

unfoldable pub doop : Op → ℕ → Machine → Run Machine
unfolding reduce push_op
doop o pri m0 =
    let m = record m0 { lastwasop = true } in
    if no_ops m.ops || pri == 128
    then (if ops_full m then exit recursion_too_deep else ok (push_op (some o) pri m))
    else (reduce (length m.ops) pri m >>= λ m1.
        ok (if ops_full m1 then record m1 { ops = [] } else push_op (some o) pri m1))

-- while (Opi != Opibase) evaltop ();
unfoldable pub flush : ℕ → Machine → Run Machine
unfolding evaltop
flush zero m = ok m
flush (suc n) m = elim (no_ops m.ops) [ true ↦ ok m | false ↦ evaltop m >>= flush n ]

-- case '[': the entry of Opdis stays what it was.
unfoldable pub open_bracket : Machine → Machine
unfolding push_op
open_bracket m = if ops_full m then m else push_op (stale m.spare) 0 m

pop_marker : List OpCell → Machine → Machine
pop_marker [] m = m
pop_marker (c ∷ cs) m = record m { ops = cs; spare = c.op ∷ m.spare }

-- case ']', its loop and the pop of the bracket.
unfoldable pub close_bracket : Machine → Run Machine
unfolding reduce pop_marker
close_bracket m = do m1 ← reduce (length m.ops) 0 m; ok (pop_marker m1.ops m1)
