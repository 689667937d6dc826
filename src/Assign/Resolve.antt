-- ===== src/Assign/Resolve.antt =====
-- The symbol of EQU is in the table afterwards, and a pass without a new reason for another one
-- has found it at its old value.
use dasm.Base.{◌+◌, if◌then◌else◌, ◌%◌, ◌≡◌, ◌↔◌, refl, ◌∙◌, true, none, some, Bytes, arith}
use dasm.Assign.{check_equ, equate, find_or_create}
use dasm.State.{Globals, Symbol, has, sym_string}
use dasm.Symbols.{createsymbol, entry}
use dasm.Symbols.Labels.{InTable, key, findsymbol-view}
use dasm.Symbols.Table.{view, view-createsymbol, same_bytes_refl}

-- EQU to a known value, of a symbol that has one: another pass is asked for just when they differ.
pub check_equ-agrees :
    (lab value : Symbol) (g : Globals)
    → lab.flags % 2 ≡ 0
    → value.flags % 2 ≡ 0
    → (((check_equ lab value g).redo ≡ g.redo) ↔ (lab.value ≡ value.value))
unfolding check_equ
check_equ-agrees lab value g l s = ground arith

-- The table has under a key a symbol with the value, the string, and of the flags SYM_UNKNOWN and
-- SYM_STRING of the expression.
pub record IsEquated (k : Bytes) (value : Symbol) (h : Globals) : Type 0 where
  pub lab : Symbol
  pub held : view h k ≡ some lab
  pub same_value : lab.value ≡ value.value
  pub same_string : lab.string ≡ value.string
  pub same_flags :
      lab.flags ≡ value.flags % 2 + (if has value.flags sym_string then sym_string else 0)

pub equate-IsEquated :
    {k : Bytes} {h : Globals} (value s : Symbol)
    → view h k ≡ some (equate value s)
    → IsEquated k value h
equate-IsEquated value s e = record {
  lab = equate value s;
  held = e;
  same_value = refl;
  same_string = refl;
  same_flags = refl;
}

pub find_or_create-found :
    (g : Globals) (label : Bytes) (s : Symbol)
    → InTable label
    → view g (key g label) ≡ some s
    → find_or_create g label ≡ (g, entry (key g label), s)
unfolding find_or_create
find_or_create-found g label s t h = rw (findsymbol-view g label t, h, find_or_create)

pub find_or_create-new :
    (g : Globals) (label : Bytes)
    → InTable label
    → view g (key g label) ≡ none
    → find_or_create g label ≡ createsymbol g label true
unfolding find_or_create
find_or_create-new g label t h = rw (findsymbol-view g label t, h, find_or_create)

pub created-view :
    (g : Globals) (label : Bytes)
    → view (createsymbol g label true).0 (key g label) ≡ some (createsymbol g label true).2
created-view g label =
    view-createsymbol g label (key g label) true ∙ unfold createsymbol in rw same_bytes_refl
