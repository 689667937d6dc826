-- ===== src/F8/Handlers.antt =====
-- The handlers of src/mnef8.c, which emit the instructions.
use dasm.Base.{
  ℕ, ◌+◌, ◌%◌, ◌/◌, Bool, false, not, ◌&&◌, ◌||◌, Option, none, some, [], ◌∷◌, Bytes, leb, ltb,
  ◌==◌, if◌then◌else◌, bit_or, get_or,
}
use dasm.Errors.{
  AsmError, syntax_error, value_must_be_1_or_4, value_must_be_lt_10, value_must_be_lt_8,
  value_must_be_lt_10000, address_must_be_lt_100, illegal_operand_combination, branch_out_of_range,
}
use dasm.Expr.Eval.{Statics}
use dasm.F8.{parse_value, parse_scratchpad_register, parse_special_register, reg_none, lr_opcode}
use dasm.Instruction.{Mnemonic, opcode_at}
use dasm.Instruction.Encode.{low_byte, distance, out_of_range}
use dasm.Origin.{on_globals}
use dasm.Output.{Output, generate}
use dasm.Run.{Run, ok, exit, undefined, ◌>>=◌}
use dasm.State.{Globals, has, report, pc_of, pc_flags, sf_unknown}
use dasm.Symbols.{programlabel}

-- emit_opcode1, emit_opcode2, emit_opcode3
unfoldable pub emit_opcode : Bytes → Output → Run Output
unfolding generate
emit_opcode bytes out = generate (record out { gen = bytes })

abbrev base_opcode : Mnemonic → ℕ
base_opcode mne = opcode_at mne 0

-- What parse_value stores: 0 where the expression is not resolved.
abbrev stored : Option ℕ → ℕ
stored none = 0
stored (some v) = v

-- `value > limit` is reported, and no reason to stop.
abbrev pub check_limit : ℕ → AsmError → ℕ → Globals → Globals
check_limit limit e v g = if ltb limit v then report e g else g

-- A handler that hands the value on and keeps the static variables. The label comes first.
abbrev with_value :
    (Option ℕ → Output → Run Output) → ℕ → Bytes → Bytes → Statics → Output → Run (Statics × Output)
with_value f processor label str st out = do
  (v, st', out1) ← parse_value processor str st (on_globals (programlabel label) out)
  out2 ← f v out1
  ok (st', out2)

-- The last byte of an instruction whose operand is in its opcode: `opcode | (operand & limit)`, for a
-- limit of 7 or 15.
unfoldable pub short_operand : ℕ → ℕ → AsmError → ℕ → Output → Run Output
unfolding emit_opcode
short_operand opcode limit e v out =
    emit_opcode (low_byte (bit_or opcode (v % (limit + 1))) ∷ [])
      (on_globals (check_limit limit e v) out)

unfoldable pub v_ins_outs : Mnemonic → ℕ → Bytes → Bytes → Statics → Output → Run (Statics × Output)
unfolding parse_value short_operand programlabel
v_ins_outs mne = with_value (λ v. short_operand (base_opcode mne) 15 value_must_be_lt_10 (stored v))

-- The opcode of a shift by 1 or 4.
unfoldable pub shift_code : Mnemonic → Option ℕ → Output → Run Output
unfolding emit_opcode
shift_code mne none out = emit_opcode (0 ∷ []) out
shift_code mne (some v) out =
    if v == 1
    then emit_opcode (low_byte (base_opcode mne) ∷ []) out
    else if v == 4
    then emit_opcode (low_byte (base_opcode mne + 2) ∷ []) out
    else emit_opcode (0 ∷ []) (on_globals (report value_must_be_1_or_4) out)

unfoldable pub v_sl_sr : Mnemonic → ℕ → Bytes → Bytes → Statics → Output → Run (Statics × Output)
unfolding parse_value shift_code programlabel
v_sl_sr mne = with_value (shift_code mne)

unfoldable pub v_lis : ℕ → Bytes → Bytes → Statics → Output → Run (Statics × Output)
unfolding parse_value short_operand programlabel
v_lis = with_value (λ v. short_operand 0x70 15 value_must_be_lt_10 (stored v))

unfoldable pub v_lisu_lisl :
    Mnemonic → ℕ → Bytes → Bytes → Statics → Output → Run (Statics × Output)
unfolding parse_value short_operand programlabel
v_lisu_lisl mne = with_value (λ v. short_operand (base_opcode mne) 7 value_must_be_lt_8 (stored v))

-- Without a register, which is left unset where the expression is not resolved, C has no value for
-- the opcode.
register_code : Mnemonic → Option ℕ → Output → Run Output
unfolding emit_opcode
register_code mne none out = undefined
register_code mne (some reg) out = emit_opcode (low_byte (bit_or (base_opcode mne) reg) ∷ []) out

unfoldable pub v_sreg_op : Mnemonic → ℕ → Bytes → Bytes → Statics → Output → Run (Statics × Output)
unfolding parse_scratchpad_register register_code programlabel
v_sreg_op mne processor label str st out = do
  (reg, st', out1) ←
      parse_scratchpad_register processor str st (on_globals (programlabel label) out)
  out2 ← register_code mne reg out1
  ok (st', out2)

abbrev comma : ℕ
comma = 44

has_comma : Bytes → Bool
has_comma [] = false
has_comma (c ∷ s) = c == comma || has_comma s

-- The two operands of a text with exactly one comma.
unfoldable pub split_operands : Bytes → Option (Bytes × Bytes)
unfolding has_comma
split_operands [] = none
split_operands (c ∷ s) =
    let rest = split_operands s in
    if c == comma
    then (if has_comma s then none else some ([], s))
    else elim rest [ none ↦ none | some (a, b) ↦ some (c ∷ a, b) ]

abbrev is_space : ℕ → Bool
is_space c = c == 32 || leb 9 c && leb c 13

-- One space in front of the comma, and one behind it.
drop_last_space : Bytes → Bytes
drop_last_space [] = []
drop_last_space (c ∷ []) = if is_space c then [] else c ∷ []
drop_last_space (c ∷ d ∷ s) = c ∷ drop_last_space (d ∷ s)

drop_space : Bytes → Bytes
drop_space [] = []
drop_space (c ∷ s) = if is_space c then s else c ∷ s

-- An operand of LR.
unfoldable pub parse_register : ℕ → Bytes → Statics → Output → Run (Option ℕ × Statics × Output)
unfolding parse_special_register parse_scratchpad_register
parse_register processor str st out =
    let reg = parse_special_register str in
    if reg == reg_none
    then parse_scratchpad_register processor str st out
    else ok (some reg, st, out)

-- The instruction that lr_opcode has, or the error that ends the assembly.
lr_code : Option ℕ → Output → Run Output
unfolding emit_opcode
lr_code none out = exit illegal_operand_combination
lr_code (some opcode) out = emit_opcode (opcode ∷ []) out

-- Both operands; space for the opcode is reserved where one of them is not resolved.
unfoldable pub lr_operands : ℕ → Bytes → Bytes → Statics → Output → Run (Statics × Output)
unfolding parse_register lr_opcode lr_code
lr_operands processor op1 op2 st out = do
  (dst, st1, out1) ← parse_register processor op1 st out
  elim dst [
    | none ↦ emit_opcode (0 ∷ []) out1 >>= λ o. ok (st1, o)
    | some d ↦ do
      (src, st2, out2) ← parse_register processor op2 st1 out1
      elim src [
        | none ↦ emit_opcode (0 ∷ []) out2 >>= λ o. ok (st2, o)
        | some s ↦ lr_code (lr_opcode d s) out2 >>= λ o. ok (st2, o)
      ]
  ]

unfoldable pub v_lr : ℕ → Bytes → Bytes → Statics → Output → Run (Statics × Output)
unfolding split_operands drop_last_space drop_space lr_operands programlabel
v_lr processor label str st out =
    let out1 = on_globals (programlabel label) out in
    elim (split_operands str) [
      | none ↦ ok (st, on_globals (report syntax_error) out1)
      | some (a, b) ↦ lr_operands processor (drop_last_space a) (drop_space b) st out1
    ]

-- isPCKnown
abbrev pub pc_known : Globals → Bool
pc_known g = not (has (pc_flags g.csegment) sf_unknown || has (pc_flags g.csegment) 2)

-- The instruction of a branch to a target; two bytes are reserved where it is not resolved.
unfoldable pub branch_code : ℕ → Option ℕ → Output → Run Output
unfolding emit_opcode distance out_of_range
branch_code opcode none out = emit_opcode (0 ∷ 0 ∷ []) out
branch_code opcode (some v) out =
    let disp = distance v (pc_of out.globals.csegment) 1 in
    if not (pc_known out.globals)
    then emit_opcode (low_byte opcode ∷ 0 ∷ []) out
    else emit_opcode (low_byte opcode ∷ low_byte disp ∷ [])
        (if out_of_range disp then on_globals (report branch_out_of_range) out else out)

unfoldable pub generate_branch : ℕ → ℕ → Bytes → Bytes → Statics → Output → Run (Statics × Output)
unfolding parse_value branch_code programlabel
generate_branch opcode = with_value (branch_code opcode)

unfoldable pub v_branch : Mnemonic → ℕ → Bytes → Bytes → Statics → Output → Run (Statics × Output)
unfolding generate_branch
v_branch mne = generate_branch (base_opcode mne)

-- The condition of BF, whose name has f behind the b, is at most 15, and that of BT at most 7.
abbrev condition_limit : Mnemonic → ℕ
condition_limit mne = if get_or mne.name 1 0 == 102 then 15 else 7

abbrev condition_error : Mnemonic → AsmError
condition_error mne = if get_or mne.name 1 0 == 102 then value_must_be_lt_10 else value_must_be_lt_8

-- The label is placed only behind the first operand, and only where that is resolved.
unfoldable pub v_bf_bt : Mnemonic → ℕ → Bytes → Bytes → Statics → Output → Run (Statics × Output)
unfolding split_operands parse_value generate_branch emit_opcode
v_bf_bt mne processor label str st out = elim (split_operands str) [
  | none ↦ ok (st, on_globals (report syntax_error) out)
  | some (a, b) ↦ do
    (mask, st1, out1) ← parse_value processor a st out
    elim mask [
      | none ↦ emit_opcode (0 ∷ 0 ∷ []) out1 >>= λ o. ok (st1, o)
      | some v ↦
          let limit = condition_limit mne in
          generate_branch (bit_or (base_opcode mne) (v % (limit + 1))) processor label b st1
            (on_globals (check_limit limit (condition_error mne) v) out1)
    ]
]

-- The operand of two bytes, the more significant one first, and of one byte.
unfoldable pub word_code : Mnemonic → ℕ → Output → Run Output
unfolding emit_opcode
word_code mne v out =
    emit_opcode (low_byte (base_opcode mne) ∷ low_byte (v / 256) ∷ low_byte v ∷ [])
      (on_globals (check_limit 0xFFFF value_must_be_lt_10000 v) out)

unfoldable pub v_wordop : Mnemonic → ℕ → Bytes → Bytes → Statics → Output → Run (Statics × Output)
unfolding parse_value word_code programlabel
v_wordop mne = with_value (λ v. word_code mne (stored v))

unfoldable pub byte_code : Mnemonic → ℕ → Output → Run Output
unfolding emit_opcode
byte_code mne v out =
    emit_opcode (low_byte (base_opcode mne) ∷ low_byte v ∷ [])
      (on_globals (check_limit 0xFF address_must_be_lt_100 v) out)

unfoldable pub v_byteop : Mnemonic → ℕ → Bytes → Bytes → Statics → Output → Run (Statics × Output)
unfolding parse_value byte_code programlabel
v_byteop mne = with_value (λ v. byte_code mne (stored v))
