-- ===== src/Assign/Again.antt =====
-- SET of src/ops.c gives a symbol a value as often as it is met.
use dasm.Base.{◌≡◌, Bytes}
use dasm.Assign.Resolve.{IsEquated}
use dasm.State.{Globals, Symbol}
use dasm.Symbols.Labels.{key}

-- What SET leaves: the table holds the label with the value, the string, and of the flags
-- SYM_UNKNOWN and SYM_STRING of the expression, and nothing asks for another pass.
pub record HasValue (label : Bytes) (value : Symbol) (g h : Globals) : Type 0 where
  pub equated : IsEquated (key g label) value h
  pub no_redo : h.redo ≡ g.redo
  pub no_error : h.errors ≡ g.errors
