-- ===== src/Expr/Operators.antt =====
-- The functions op_takelsb to op_or of src/exp.c. `st v f` is stackarg (v, f, NULL).
use dasm.Base.{
  ℕ, ◌%◌, true, not, ◌&&◌, ◌||◌, ltb, ◌==◌, if◌then◌else◌, to_nat, bit_and, bit_or, bit_xor,
}
use dasm.Errors.{division_by_0}
use dasm.Expr.Machine.{
  Unary, takelsb, takemsb, invert, Binary, mult, div, modulo, add, sub, shiftleft, shiftright,
  greater, greatereq, smaller, smallereq, eqeq, noteq, andand, oror, xor, and, or, question,
  Machine,
}
use dasm.Run.{Run, ok, exit, ◌>>=◌}
use dasm.Word

abbrev pub Stackarg : Type 0
Stackarg = ℕ → ℕ → Machine → Run Machine

-- Lastwasop = 1;
abbrev pub after_op : Machine → Run Machine
after_op m = ok (record m { lastwasop = true })

-- The shift count, or 0 outside [0, 63].
abbrev pub shift_count : ℕ → ℕ
shift_count v = if ltb v 64 then v else 0

unfoldable pub op_unary : Stackarg → Unary → Stackarg
unfolding Word.shift_right Word.negate Word.invert
op_unary st takelsb v1 f1 = st (v1 % 256) f1
op_unary st takemsb v1 f1 = st (Word.shift_right v1 8 % 256) f1
op_unary st Unary.negate v1 f1 = st (Word.negate v1) f1
op_unary st invert v1 f1 = st (Word.invert v1) f1
op_unary st Unary.not v1 f1 = st (to_nat (v1 == 0)) f1

unfoldable pub op_div : Stackarg → ℕ → ℕ → Stackarg
unfolding Word.divide
op_div st v1 v2 f1 f2 m =
    let m' = record m { lastwasop = true } in
    if not (bit_or f1 f2 == 0)
    then st 0 (bit_or f1 f2) m'
    else if v2 == 0
    then exit division_by_0
    else st (Word.divide v1 v2) 0 m'

unfoldable pub op_mod : Stackarg → ℕ → ℕ → Stackarg
unfolding Word.remainder
op_mod st v1 v2 f1 f2 m =
    if not (bit_or f1 f2 == 0)
    then st 0 (bit_or f1 f2) m
    else if v2 == 0
    then exit division_by_0
    else (st (Word.remainder v1 v2) 0 m >>= after_op)

unfoldable pub op_question : Stackarg → ℕ → ℕ → Stackarg
op_question st v1 v2 f1 f2 = if not (f1 == 0) then st 0 f1 else if v1 == 0 then st 0 0 else st v2 f2

unfoldable pub op_shift : Stackarg → (ℕ → ℕ → ℕ) → ℕ → ℕ → Stackarg
op_shift st shift v1 v2 f1 f2 =
    if not (bit_or f1 f2 == 0) then st 0 (bit_or f1 f2) else st (shift v1 (shift_count v2)) 0

unfoldable pub op_andand : Stackarg → ℕ → ℕ → Stackarg
op_andand st v1 v2 f1 f2 =
    if (f1 == 0 && v1 == 0) || (f2 == 0 && v2 == 0) then st 0 0 else st 1 (bit_or f1 f2)

unfoldable pub op_oror : Stackarg → ℕ → ℕ → Stackarg
op_oror st v1 v2 f1 f2 =
    if (f1 == 0 && not (v1 == 0)) || (f2 == 0 && not (v2 == 0)) then st 1 0 else st 0 (bit_or f1 f2)

unfoldable pub op_binary : Stackarg → Binary → ℕ → ℕ → Stackarg
unfolding op_div op_mod op_question op_shift op_andand op_oror Word.mul Word.add Word.sub Word.less
    Word.shift_right Word.shift_left
op_binary st mult v1 v2 f1 f2 m = st (Word.mul v1 v2) (bit_or f1 f2) m >>= after_op
op_binary st div v1 v2 f1 f2 m = op_div st v1 v2 f1 f2 m
op_binary st modulo v1 v2 f1 f2 m = op_mod st v1 v2 f1 f2 m
op_binary st question v1 v2 f1 f2 m = op_question st v1 v2 f1 f2 m
op_binary st add v1 v2 f1 f2 m = st (Word.add v1 v2) (bit_or f1 f2) m >>= after_op
op_binary st sub v1 v2 f1 f2 m = st (Word.sub v1 v2) (bit_or f1 f2) m >>= after_op
op_binary st shiftright v1 v2 f1 f2 m = op_shift st Word.shift_right v1 v2 f1 f2 m
op_binary st shiftleft v1 v2 f1 f2 m = op_shift st Word.shift_left v1 v2 f1 f2 m
op_binary st greater v1 v2 f1 f2 m = st (to_nat (Word.less v2 v1)) (bit_or f1 f2) m
op_binary st greatereq v1 v2 f1 f2 m = st (to_nat (not (Word.less v1 v2))) (bit_or f1 f2) m
op_binary st smaller v1 v2 f1 f2 m = st (to_nat (Word.less v1 v2)) (bit_or f1 f2) m
op_binary st smallereq v1 v2 f1 f2 m = st (to_nat (not (Word.less v2 v1))) (bit_or f1 f2) m
op_binary st eqeq v1 v2 f1 f2 m = st (to_nat (v1 == v2)) (bit_or f1 f2) m
op_binary st noteq v1 v2 f1 f2 m = st (to_nat (not (v1 == v2))) (bit_or f1 f2) m
op_binary st andand v1 v2 f1 f2 m = op_andand st v1 v2 f1 f2 m
op_binary st oror v1 v2 f1 f2 m = op_oror st v1 v2 f1 f2 m
op_binary st xor v1 v2 f1 f2 m = st (bit_xor v1 v2) (bit_or f1 f2) m
op_binary st and v1 v2 f1 f2 m = st (bit_and v1 v2) (bit_or f1 f2) m
op_binary st or v1 v2 f1 f2 m = st (bit_or v1 v2) (bit_or f1 f2) m
