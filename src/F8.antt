-- ===== src/F8.antt =====
-- The instructions of the F8 (src/mnef8.c): the operands, and the opcodes of LR.
pub mod Handlers
pub mod Registers
pub mod Fields
pub mod Branch
use dasm.Base.{
  ℕ, ◌+◌, ◌-◌, Bool, true, false, not, ◌&&◌, ◌||◌, Option, none, some, List, [], ◌∷◌, Bytes, codes,
  map, ltb, leb, ◌==◌, if◌then◌else◌, same_bytes, bit_or,
}
use mathlib.Core.Option
use dasm.Errors.{syntax_error, value_must_be_lt_f}
use dasm.Expr.Eval.{Statics}
use dasm.Expr.Steps.{eval}
use dasm.Instruction.{unknown}
use dasm.Modes.{am_byteadr}
use dasm.Output.{Output}
use dasm.Run.{Run, ok, exit, undefined, ◌>>=◌}
use dasm.State.{Symbol, Globals, again, mnemonic_not_resolved}

-- enum REGISTERS; below 16 are the registers of the scratchpad.
abbrev pub reg_a : ℕ
reg_a = 16

abbrev reg_dc0 : ℕ
reg_dc0 = 17

abbrev reg_h : ℕ
reg_h = 18

abbrev reg_is : ℕ
reg_is = 19

abbrev reg_k : ℕ
reg_k = 20

abbrev reg_ku : ℕ
reg_ku = 21

abbrev reg_kl : ℕ
reg_kl = 22

abbrev reg_pc0 : ℕ
reg_pc0 = 23

abbrev reg_pc1 : ℕ
reg_pc1 = 24

abbrev reg_q : ℕ
reg_q = 25

abbrev reg_qu : ℕ
reg_qu = 26

abbrev reg_ql : ℕ
reg_ql = 27

abbrev reg_w : ℕ
reg_w = 28

abbrev pub reg_none : ℕ
reg_none = 29

-- What parse_value makes of the symbols: the value, or none where it is not resolved.
unfoldable pub value_of : List Symbol → Globals → Run (Option ℕ × Globals)
value_of [] g = undefined
value_of (s ∷ t ∷ r) g = exit syntax_error
value_of (s ∷ []) g =
    if not (s.addrmode == am_byteadr)
    then exit syntax_error
    else if unknown s
    then ok (none, again mnemonic_not_resolved g)
    else ok (some s.value, g)

unfoldable pub parse_value : ℕ → Bytes → Statics → Output → Run (Option ℕ × Statics × Output)
unfolding eval value_of
parse_value processor str st out = do
  (syms, st', g) ← eval processor st out.globals str false
  (v, g') ← value_of syms g
  ok (v, st', record out { globals = g' })

abbrev to_lower : ℕ → ℕ
to_lower c = if leb 65 c && leb c 90 then c + 32 else c

-- !strcasecmp, against a name in small letters
abbrev is_name : Bytes → Bytes → Bool
is_name name str = same_bytes name (map to_lower str)

-- The names of registers of the scratchpad.
unfoldable pub scratchpad_name : Bytes → Option ℕ
scratchpad_name str =
    if is_name (codes "s") str || is_name (codes "(is)") str
    then some 0x0c
    else if is_name (codes "i") str || is_name (codes "(is)+") str
    then some 0x0d
    else if is_name (codes "d") str || is_name (codes "(is)-") str
    then some 0x0e
    else if is_name (codes "j") str
    then some 0x09
    else if is_name (codes "hu") str
    then some 0x0a
    else if is_name (codes "hl") str
    then some 0x0b
    else none

-- The number of a register, at most 14.
unfoldable pub register_number : Option ℕ → Run (Option ℕ)
register_number none = ok none
register_number (some n) = if ltb 14 n then exit value_must_be_lt_f else ok (some n)

unfoldable pub parse_scratchpad_register :
    ℕ → Bytes → Statics → Output → Run (Option ℕ × Statics × Output)
unfolding scratchpad_name parse_value register_number
parse_scratchpad_register processor str st out = elim (scratchpad_name str) [
  | some reg ↦ ok (some reg, st, out)
  | none ↦ do
    (v, st', out') ← parse_value processor str st out
    reg ← register_number v
    ok (reg, st', out')
]

unfoldable pub parse_special_register : Bytes → ℕ
parse_special_register str =
    if is_name (codes "a") str
    then reg_a
    else if is_name (codes "dc0") str || is_name (codes "dc") str
    then reg_dc0
    else if is_name (codes "h") str
    then reg_h
    else if is_name (codes "is") str
    then reg_is
    else if is_name (codes "k") str
    then reg_k
    else if is_name (codes "ku") str
    then reg_ku
    else if is_name (codes "kl") str
    then reg_kl
    else if is_name (codes "pc0") str || is_name (codes "p0") str
    then reg_pc0
    else if is_name (codes "pc1") str || is_name (codes "p") str
    then reg_pc1
    else if is_name (codes "q") str
    then reg_q
    else if is_name (codes "qu") str
    then reg_qu
    else if is_name (codes "ql") str
    then reg_ql
    else if is_name (codes "w") str
    then reg_w
    else reg_none

-- lr a,src
unfoldable pub load_a : ℕ → Option ℕ
load_a src =
    if src == reg_is
    then some 0x0a
    else if src == reg_kl
    then some 0x01
    else if src == reg_ku
    then some 0x00
    else if src == reg_ql
    then some 0x03
    else if src == reg_qu
    then some 0x02
    else if ltb src 15
    then some (bit_or 0x40 src)
    else none

abbrev from : ℕ → ℕ → ℕ → Option ℕ
from src reg opcode = if src == reg then some opcode else none

-- lr dst,src, for registers other than those of the scratchpad and the accumulator
unfoldable pub load_special : ℕ → ℕ → Option ℕ
load_special dst src =
    if dst == reg_dc0
    then (if src == reg_h then some 0x10 else from src reg_q 0x0f)
    else if dst == reg_h
    then from src reg_dc0 0x11
    else if dst == reg_is
    then from src reg_a 0x0b
    else if dst == reg_k
    then from src reg_pc1 0x08
    else if dst == reg_kl
    then from src reg_a 0x05
    else if dst == reg_ku
    then from src reg_a 0x04
    else if dst == reg_pc0
    then from src reg_q 0x0d
    else if dst == reg_pc1
    then from src reg_k 0x09
    else if dst == reg_q
    then from src reg_dc0 0x0e
    else if dst == reg_ql
    then from src reg_a 0x07
    else if dst == reg_qu
    then from src reg_a 0x06
    else if dst == reg_w
    then from src 9 0x1d
    else none

-- The opcode of LR for two registers, none for -1.
unfoldable pub lr_opcode : ℕ → ℕ → Option ℕ
unfolding load_a load_special
lr_opcode dst src =
    if dst == reg_a
    then load_a src
    else if ltb 15 dst
    then load_special dst src
    else if ltb dst 15 && src == reg_a
    then some (bit_or 0x50 dst)
    else if dst == 9 && src == reg_w
    then some 0x1e
    else none
