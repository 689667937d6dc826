-- ===== src/Sources.antt =====
-- Where the lines come from: files and macros (v_execmac, v_end, v_endm and v_mexit of src/ops.c,
-- pushinclude and the reading of lines in src/main.c), and the loops of REPEAT.
pub mod Scopes
pub mod Macros
pub mod Steps
pub mod Fresh
pub mod Loops
pub mod Rounds
pub mod Unclosed
use dasm.Base.{
  ℕ, zero, suc, ◌+◌, ◌-◌, Bool, true, false, not, ◌&&◌, ◌||◌, Option, none, some, List, [], ◌∷◌,
  Bytes, length, ◌==◌, if◌then◌else◌,
}
use dasm.Conditional.{If, IfStack, assembles, pushif, pop_if}
use dasm.Errors.{recursion_too_deep, repeat_negative, file_error}
use dasm.Run.{Run, ok, exit, undefined, ◌>>=◌}
use dasm.State.{Symbol, Globals, again, report, repeat_not_resolved, include_failed}
use dasm.Symbols.{programlabel}
use dasm.Word.{sub, is_negative}

-- INCFILE. `text` is what is still to be read: strlist for a macro, and else the lines of fi. `file`
-- stands for the address of the structure.
pub record IncFile : Type 0 where
  pub file : ℕ
  pub name : Bytes
  pub is_macro : Bool
  pub lineno : ℕ
  pub saveidx : ℕ
  pub savedolidx : ℕ
  pub text : List Bytes
  pub args : List Bytes

-- REPLOOP; `seek` is the text that a round starts from.
pub record RepLoop : Type 0 where
  pub file : ℕ
  pub seek : List Bytes
  pub lineno : ℕ
  pub count : ℕ
  pub flags : ℕ

-- pIncfile and what is below it, Mlevel, Inclevel, Reploop, Ifstack; `fresh` is an address that no
-- INCFILE has had.
pub record Reading : Type 0 where
  pub incfiles : List IncFile
  pub mlevel : ℕ
  pub inclevel : ℕ
  pub reploops : List RepLoop
  pub ifs : IfStack
  pub globals : Globals
  pub fresh : ℕ

abbrev pub max_mac_level : ℕ
max_mac_level = 32

abbrev newline : ℕ
newline = 10

abbrev comma : ℕ
comma = 44

-- The text up to a comma or the end of the line, and the rest.
unfoldable pub read_arg : Bytes → Bytes × Bytes
read_arg [] = ([], [])
read_arg (c ∷ s) =
    let (a, r) = read_arg s in if c == newline || c == comma then ([], c ∷ s) else (c ∷ a, r)

drop_comma : Bytes → Bytes
drop_comma [] = []
drop_comma (c ∷ s) = if c == comma then s else c ∷ s

skip_spaces : Bytes → Bytes
skip_spaces [] = []
skip_spaces (c ∷ s) = let r = skip_spaces s in if c == 32 then r else c ∷ s

-- The arguments of a macro; a round reads at least one character.
unfoldable pub macro_args : ℕ → Bytes → List Bytes
unfolding read_arg drop_comma skip_spaces
macro_args zero str = []
macro_args (suc n) [] = []
macro_args (suc n) (c ∷ s) =
    let (a, r) = read_arg (c ∷ s) in
    let others = macro_args n (skip_spaces (drop_comma r)) in
    if c == newline then [] else a ∷ others

-- The scope of a macro: new numbers for its local names.
abbrev new_scope : Globals → Globals
new_scope g = record g {
  lastlocalindex = g.lastlocalindex + 1;
  localindex = g.lastlocalindex + 1;
  lastlocaldollarindex = g.lastlocaldollarindex + 1;
  localdollarindex = g.lastlocaldollarindex + 1;
}

-- A macro of this name and text is called with the arguments `str`.
unfoldable pub v_execmac : Bytes → List Bytes → Bytes → Bytes → Reading → Run Reading
unfolding programlabel macro_args
v_execmac name strlist label str r =
    let g = programlabel label r.globals in
    if r.mlevel == max_mac_level
    then exit recursion_too_deep
    else ok (record r {
      mlevel = r.mlevel + 1;
      incfiles =
          record {
            file = r.fresh;
            name = name;
            is_macro = true;
            lineno = 0;
            saveidx = g.localindex;
            savedolidx = g.localdollarindex;
            text = strlist;
            args = str ∷ macro_args (length str) str;
          }
          ∷ r.incfiles;
      globals = new_scope g;
      fresh = r.fresh + 1;
    })

-- The macro `inc` is left. (At 0 the source's `--Mlevel` would wrap around.)
unfoldable pub leave : IncFile → List IncFile → Reading → Reading
leave inc next r =
    let g = r.globals in
    record r {
      mlevel = r.mlevel - 1;
      incfiles = next;
      globals = record g { localindex = inc.saveidx; localdollarindex = inc.savedolidx };
    }

-- v_endm, and v_mexit, which calls it. Outside of a macro a message is printed.
unfoldable pub endm_at : List IncFile → Reading → Run Reading
unfolding leave
endm_at [] r = undefined
endm_at (inc ∷ next) r = if inc.is_macro then ok (leave inc next r) else ok r

abbrev pub v_endm : Reading → Run Reading
v_endm r = endm_at r.incfiles r

-- v_end: the macros are left, and the file is read to its end.
unfoldable pub leave_macros : List IncFile → Reading → Run Reading
unfolding leave
leave_macros [] r = undefined
leave_macros (inc ∷ next) r =
    let rest = leave_macros next (leave inc next r) in
    if inc.is_macro then rest else ok (record r { incfiles = record inc { text = [] } ∷ next })

abbrev pub v_end : Reading → Run Reading
v_end r = leave_macros r.incfiles r

-- pushinclude; `found` is the text of the file, where pfopen finds it.
unfoldable pub pushinclude : Bytes → Option (List Bytes) → Reading → Reading
pushinclude name none r =
    let g = r.globals in record r { globals = again include_failed (report file_error g) }
pushinclude name (some lines) r = record r {
  inclevel = r.inclevel + 1;
  incfiles =
      record {
        file = r.fresh;
        name = name;
        is_macro = false;
        lineno = 0;
        saveidx = 0;
        savedolidx = 0;
        text = lines;
        args = [];
      }
      ∷ r.incfiles;
  fresh = r.fresh + 1;
}

-- The next line; macros that have none left are left themselves. None at the end of a file.
unfoldable pub read_line : List IncFile → Reading → Run (Option Bytes × Reading)
unfolding leave
read_line [] r = undefined
read_line (inc ∷ next) r =
    let back = read_line next (leave inc next r) in
    elim inc.text [
      | [] ↦ if inc.is_macro then back else ok (none, r)
      | line ∷ text ↦ ok (
        some line,
        record r { incfiles = record inc { text = text; lineno = inc.lineno + 1 } ∷ next },
      )
    ]

-- while (Reploop && Reploop->file == pIncfile)
drop_loops : ℕ → List RepLoop → List RepLoop
drop_loops file [] = []
drop_loops file (l ∷ ls) = let rest = drop_loops file ls in if l.file == file then rest else l ∷ ls

-- while (Ifstack->file == pIncfile); the bottom of the stack belongs to no file.
drop_ifs : ℕ → If → List If → IfStack
drop_ifs file t [] = record { top = t; below = [] }
drop_ifs file t (i ∷ below) =
    let rest = drop_ifs file i below in
    if t.file == file then rest else record { top = t; below = i ∷ below }

-- What is done at the end of a file.
unfoldable pub close_file : List IncFile → Reading → Run Reading
unfolding drop_loops drop_ifs
close_file [] r = undefined
close_file (inc ∷ next) r = ok (record r {
  reploops = drop_loops inc.file r.reploops;
  ifs = drop_ifs inc.file r.ifs.top r.ifs.below;
  inclevel = r.inclevel - 1;
  incfiles = next;
})

-- REPEAT at the number that eval returns, in the file `inc`.
unfoldable pub push_loop : IncFile → Symbol → Reading → Reading
unfolding pushif
push_loop inc sym r =
    let g = r.globals in
    if sym.value == 0
    then record r { ifs = pushif inc.file false r.ifs }
    else if is_negative sym.value
    then record r { ifs = pushif inc.file false r.ifs; globals = report repeat_negative g }
    else record r {
      ifs = pushif inc.file true r.ifs;
      reploops =
          record {
            file = inc.file;
            seek = inc.text;
            lineno = inc.lineno;
            count = sym.value;
            flags = sym.flags;
          }
          ∷ r.reploops;
      globals = if sym.flags == 0 then g else again repeat_not_resolved g;
    }

-- ENDIF
unfoldable pub close_if : Bytes → IncFile → Reading → Reading
unfolding programlabel pop_if
close_if label inc r =
    let t = r.ifs.top in
    if t.is_base then r else record r {
      globals = if t.acctrue then programlabel label r.globals else r.globals;
      ifs = pop_if inc.file r.ifs;
    }

-- REPEND: another round, or the end of the loop.
unfoldable pub next_round :
    Bytes → IncFile → List IncFile → RepLoop → List RepLoop → Reading → Reading
unfolding close_if
next_round label inc next l ls r =
    let left = sub l.count 1 in
    if l.flags == 0 && not (left == 0)
    then record r {
      reploops = record l { count = left } ∷ ls;
      incfiles = record inc { text = l.seek; lineno = l.lineno } ∷ next;
    }
    else close_if label inc (record r { reploops = ls })

unfoldable pub repend_at : Bytes → List IncFile → List RepLoop → Reading → Run Reading
unfolding close_if next_round
repend_at label [] ls r = undefined
repend_at label (inc ∷ next) [] r = ok (if assembles r.ifs.top then r else close_if label inc r)
repend_at label (inc ∷ next) (l ∷ ls) r = ok (
    if not (assembles r.ifs.top)
    then close_if label inc r
    else if l.file == inc.file
    then next_round label inc next l ls r
    else r)

abbrev pub v_repend : Bytes → Reading → Run Reading
v_repend label r = repend_at label r.incfiles r.reploops r
