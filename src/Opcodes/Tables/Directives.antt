-- ===== src/Opcodes/Tables/Directives.antt =====
-- The table Ops of src/globals.c.
use dasm.Base.{◌+◌, List, [], ◌∷◌, codes}
use dasm.Instruction.{
  Mnemonic, by_align, by_dc, by_ds, by_echo, by_else, by_end, by_endif, by_endm, by_eqm, by_equ,
  by_err, by_hex, by_if, by_ifconst, by_ifnconst, by_incbin, by_incdir, by_include, by_list,
  by_macro, by_mexit, by_org, by_processor, by_rend, by_repeat, by_repend, by_rorg, by_seg, by_set,
  by_setstr, by_setsym, by_subroutine, by_trace,
}
use dasm.Opcodes.Tables.{row, mf_begm, mf_endm, mf_if}

abbrev pub ops : List Mnemonic
ops =
    row by_list (codes "list") 0 0 (0x00 ∷ [])
    ∷ row by_include (codes "include") 0 0 (0x00 ∷ [])
    ∷ row by_seg (codes "seg") 0 0 (0x00 ∷ [])
    ∷ row by_hex (codes "hex") 0 0 (0x00 ∷ [])
    ∷ row by_err (codes "err") 0 0 (0x00 ∷ [])
    ∷ row by_dc (codes "dc") 0 0 (0x00 ∷ [])
    ∷ row by_dc (codes "byte") 0 0 (0x00 ∷ [])
    ∷ row by_dc (codes "word") 0 0 (0x00 ∷ [])
    ∷ row by_dc (codes "long") 0 0 (0x00 ∷ [])
    ∷ row by_ds (codes "ds") 0 0 (0x00 ∷ [])
    ∷ row by_dc (codes "dv") 0 0 (0x00 ∷ [])
    ∷ row by_end (codes "end") 0 0 (0x00 ∷ [])
    ∷ row by_trace (codes "trace") 0 0 (0x00 ∷ [])
    ∷ row by_org (codes "org") 0 0 (0x00 ∷ [])
    ∷ row by_rorg (codes "rorg") 0 0 (0x00 ∷ [])
    ∷ row by_rend (codes "rend") 0 0 (0x00 ∷ [])
    ∷ row by_align (codes "align") 0 0 (0x00 ∷ [])
    ∷ row by_subroutine (codes "subroutine") 0 0 (0x00 ∷ [])
    ∷ row by_equ (codes "equ") 0 0 (0x00 ∷ [])
    ∷ row by_equ (codes "=") 0 0 (0x00 ∷ [])
    ∷ row by_eqm (codes "eqm") 0 0 (0x00 ∷ [])
    ∷ row by_set (codes "set") 0 0 (0x00 ∷ [])
    ∷ row by_setstr (codes "setstr") 0 0 (0x00 ∷ [])
    ∷ row by_setsym (codes "setsym") 0 0 (0x00 ∷ [])
    ∷ row by_macro (codes "mac") (mf_if + mf_begm) 0 (0x00 ∷ [])
    ∷ row by_macro (codes "macro") (mf_if + mf_begm) 0 (0x00 ∷ [])
    ∷ row by_endm (codes "endm") (mf_endm) 0 (0x00 ∷ [])
    ∷ row by_mexit (codes "mexit") 0 0 (0x00 ∷ [])
    ∷ row by_ifconst (codes "ifconst") (mf_if) 0 (0x00 ∷ [])
    ∷ row by_ifnconst (codes "ifnconst") (mf_if) 0 (0x00 ∷ [])
    ∷ row by_ifnconst (codes "ifndef") (mf_if) 0 (0x00 ∷ [])
    ∷ row by_if (codes "if") (mf_if) 0 (0x00 ∷ [])
    ∷ row by_else (codes "else") (mf_if) 0 (0x00 ∷ [])
    ∷ row by_endif (codes "endif") (mf_if) 0 (0x00 ∷ [])
    ∷ row by_endif (codes "eif") (mf_if) 0 (0x00 ∷ [])
    ∷ row by_repeat (codes "repeat") (mf_if) 0 (0x00 ∷ [])
    ∷ row by_repend (codes "repend") (mf_if) 0 (0x00 ∷ [])
    ∷ row by_echo (codes "echo") 0 0 (0x00 ∷ [])
    ∷ row by_processor (codes "processor") 0 0 (0x00 ∷ [])
    ∷ row by_incbin (codes "incbin") 0 0 (0x00 ∷ [])
    ∷ row by_incdir (codes "incdir") 0 0 (0x00 ∷ [])
    ∷ []
