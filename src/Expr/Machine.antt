-- ===== src/Expr/Machine.antt =====
-- The stacks of src/exp.c for one call of eval. `args` and `ops` are the entries from Argibase and
-- Opibase up to Argi and Opi, the top first; the entries of the outer calls are only counted. The
-- entries of Opdis from Opi on, which a bracket leaves as they are, are `spare`, the lowest first.
use dasm.Base.{ℕ, ◌+◌, Bool, Option, none, List, [], ◌∷◌, Bytes, leb, length}
use dasm.Errors.{AsmError}

pub data Unary : Type 0 where
  takelsb takemsb negate invert not : Unary

pub data Binary : Type 0 where
  mult div modulo add sub shiftleft shiftright greater greatereq smaller smallereq : Binary
  eqeq noteq andand oror xor and or question : Binary

pub data Op : Type 0 where
  unary : Unary → Op
  binary : Binary → Op

-- One place of Argstack, Argflags and Argstring.
pub record Arg : Type 0 where
  pub value : ℕ
  pub flags : ℕ
  pub string : Option Bytes

-- One place of Opdis and Oppri.
pub record OpCell : Type 0 where
  pub op : Option Op
  pub pri : ℕ

pub record Machine : Type 0 where
  pub args : List Arg
  pub ops : List OpCell
  pub spare : List (Option Op)
  pub argibase : ℕ
  pub opibase : ℕ
  pub lastwasop : Bool
  pub errors : List AsmError

abbrev pub max_ops : ℕ
max_ops = 32

abbrev pub max_args : ℕ
max_args = 64

abbrev pub sym_unknown : ℕ
sym_unknown = 0x01

abbrev pub sym_string : ℕ
sym_string = 0x08

-- asmerr without bAbort: the message is added, and the caller goes on.
abbrev pub asmerr : AsmError → Machine → Machine
asmerr e m = record m { errors = e ∷ m.errors }

abbrev pub args_full : Machine → Bool
args_full m = leb max_args (m.argibase + length m.args)

abbrev pub ops_full : Machine → Bool
ops_full m = leb max_ops (m.opibase + length m.ops)

-- `*spare`, or NULL in an entry that was never written.
abbrev pub stale : List (Option Op) → Option Op
stale [] = none
stale (o ∷ s) = o

abbrev pub unspare : List (Option Op) → List (Option Op)
unspare [] = []
unspare (o ∷ s) = s
