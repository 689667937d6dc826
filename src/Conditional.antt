-- ===== src/Conditional.antt =====
-- The IF stack of src/ops.c, and what IF, IFCONST, IFNCONST, ELSE and ENDIF do to it behind
-- programlabel and eval. A file is its number.
pub mod Nesting
use dasm.Base.{ℕ, ◌+◌, Bool, true, false, not, ◌&&◌, List, [], ◌∷◌, ◌==◌, if◌then◌else◌}
use dasm.State.{Symbol}

-- One IFSTACK; `is_base` is IFF_BASE in its flags.
pub record If : Type 0 where
  pub file : ℕ
  pub is_base : Bool
  pub xtrue : Bool
  pub acctrue : Bool

-- The stack: the top and what is below it.
pub record IfStack : Type 0 where
  pub top : If
  pub below : List If

-- Is the text at this place assembled?
abbrev pub assembles : If → Bool
assembles i = i.xtrue && i.acctrue

unfoldable pub pushif : ℕ → Bool → IfStack → IfStack
pushif file xbool s = record s {
  top = record {
    file = file;
    is_base = false;
    xtrue = xbool;
    acctrue = s.top.acctrue && s.top.xtrue;
  };
  below = s.top ∷ s.below;
}

-- What v_if does to the stack, for the symbol that eval returns.
unfoldable pub if_symbol : ℕ → Symbol → IfStack → IfStack
unfolding pushif
if_symbol file sym s =
    if not s.top.xtrue
    then pushif file false s
    else if not s.top.acctrue
    then pushif file false s
    else if sym.flags == 0
    then pushif file (not (sym.value == 0)) s
    else (let p = pushif file false s in
        let t = p.top in record p { top = record t { acctrue = false } })

unfoldable pub ifconst_symbol : ℕ → Symbol → IfStack → IfStack
unfolding pushif
ifconst_symbol file sym = pushif file (sym.flags == 0)

unfoldable pub ifnconst_symbol : ℕ → Symbol → IfStack → IfStack
unfolding pushif
ifnconst_symbol file sym = pushif file (not (sym.flags == 0))

unfoldable pub flip_branch : IfStack → IfStack
flip_branch s =
    let t = s.top in
    if t.acctrue && not t.is_base then record s { top = record t { xtrue = not t.xtrue } } else s

-- An ENDIF of another file than its IF prints a message and pops nothing.
unfoldable pub pop_if : ℕ → IfStack → IfStack
pop_if file s = endif_below s.below
  where
    endif_below : List If → IfStack
    endif_below [] = s
    endif_below (i ∷ below) =
        if s.top.is_base
        then s
        else if s.top.file == file
        then record s { top = i; below = below }
        else s
