-- ===== src/Lib.antt =====
-- DASM, the cross assembler for 8-bit processors, in src/ of the repository (C).
--
-- The assembler reads its source line by line, in as many passes as it takes until no pass asks
-- for another one (Redo). A line has a label, a directive or an opcode, and an expression. The
-- handlers of src/ops.c place the label (programlabel), evaluate the expression (eval), change the
-- symbol table, the segment or the IF stack, and hand bytes to generate, which writes them on the
-- pass that has nothing left to resolve. src/ftohex.c turns the file into Intel HEX, and
-- src/ftobin.c into a raw binary file.
--
-- The files, and the code that they are about:
--   Base        numbers, Boolean tests, lists and byte strings; decimal numerals as sprintf and
--               the number readers take them (Base/Decimal)
--   Word        a C long on a 64-bit host, as a bit pattern below 2^64
--   Errors      enum ASM_ERROR_EQUATES of src/asm.h and the table sErrorDef of src/main.c
--   Run         how a call ends: a value, an error that exits, panic, undefined behaviour
--   State       SEGMENT, SYMBOL, REASON_CODES of src/asm.h; the globals that the parts share
--   Modes       enum ADDRESS_MODES of src/asm.h, Cvt and Opsize of src/globals.c
--   Symbols     src/symbols.c: the table with its chains, local names, programlabel
--   Expr        src/exp.c: the stacks (Machine, Stack), the operators, the literals, the cases of
--               the switch of eval (Eval, Steps), and expressions as trees (Precedence)
--   Output      generate, closegenerate and genfill of src/ops.c
--   Origin      DS, ORG, RORG, REND, ALIGN and HEX of src/ops.c
--   Data        DC of src/ops.c
--   Assign      EQU, EQM and SUBROUTINE of src/ops.c; SET, SETSTR and SETSYM (Dynamic)
--   Conditional the IF stack of src/ops.c
--   Instruction v_mnemonic of src/ops.c: the choice of the mode, and the bytes (Encode)
--   F8          src/mnef8.c: the operands, the opcodes of LR, and the handlers (Handlers)
--   Sources     macros, files and loops: v_execmac, v_endm, v_end, v_repeat and v_repend of src/ops.c,
--               pushinclude and the reading of lines of src/main.c
--   Segments    v_seg of src/ops.c and clearsegs of src/main.c
--   Passes      the loop over the passes in MainShadow of src/main.c
--   Opcodes     the table of mnemonics: addhashtable and findmne of src/main.c; the tables of src/mne*.c
--               and Ops of src/globals.c (Tables)
--   Session     a pass over the lines: the reading and the dispatch in MainShadow of src/main.c (Lines), the
--               functions behind the rows of the tables (Handlers), v_macro (Definition), DV (Values)
--   Processor   PROCESSOR of src/ops.c
--   Include     INCLUDE and INCBIN of src/ops.c; pfopen is a parameter
--   Directives  the handlers of src/ops.c as a whole: v_ds, v_org, v_rorg, v_align, v_dc, v_equ,
--               v_if, v_ifconst, v_ifnconst, v_else, v_endif, v_repeat and v_mnemonic, with
--               programlabel and eval
--   Extension   findext of src/main.c
--   Line        cleanup (Comments, Cleanup) and parse (Parse) of src/main.c
--   Notify      src/errors.c: the line of a message, its level, the deferred buffer
--   Util        src/util.c: strings, hash_string, and small_alloc (Pool)
--   Hex         src/ftohex.c
--   Binary      src/ftobin.c
--   Tests       runs, and the theorems at concrete inputs
--
-- A handler is a function of the label, the text behind the directive and the state; what it does
-- with the symbols that eval returns is a function of its own (org_symbols for v_org). A pointer into
-- the symbol table is the name of the symbol there.
--
-- Loops are recursion on a list where they walk one, and else on fuel: the loops over the operator
-- stack have its height (each round pops an operator), the loop of eval the length of the text
-- (each round reads a character), genfill the number of bytes (each round takes 1024), ftohex and ftobin the
-- length of what it converts. eval calls itself for macro symbols to the depth of 1000 that
-- pushsymbol allows.
--
-- The loop over passes has the limit of the option -p as its fuel, the loop along Cvt three rounds, and
-- the arguments of a macro the length of their text. An INCFILE is told from another by a number in
-- place of its address. What the lines of a pass do is a parameter of the loop
-- over passes; Session has a pass with fuel for its steps.
--
-- cleanup moves a comment per round, and a line has fewer of them than characters; where an argument of a
-- macro holds its own number in braces it reads without an end, so that it has fuel for 2^20 characters.
--
-- Not modelled: the command line, the listing, and what LIST, ECHO, TRACE and INCDIR do beyond the state
-- of a pass. What asmerr reports is an error number, and what vsnprintf
-- makes of a message is a parameter. Except in Notify and Util, memory is not exhausted; writes to the output
-- file succeed.
pub mod Base
pub mod Util
pub mod Word
pub mod Errors
pub mod Run
pub mod State
pub mod Modes
pub mod Symbols
pub mod Expr
pub mod Output
pub mod Origin
pub mod Extension
pub mod F8
pub mod Sources
pub mod Segments
pub mod Passes
pub mod Opcodes
pub mod Binary
pub mod Include
pub mod Line
pub mod Processor
pub mod Conditional
pub mod Data
pub mod Hex
pub mod Assign
pub mod Tests
pub mod Session
pub mod Notify
pub mod Directives
pub mod Instruction
