-- ===== src/Errors.antt =====
-- The error numbers of src/asm.h and the table sErrorDef of src/main.c (its messages left out).
use dasm.Base.{ℕ, ◌≡◌, refl, Bool, true, false, none, some, List, [], ◌∷◌, get_elem?}

pub data AsmError : Type 0 where
  no_error command_line file_error not_resolvable too_many_passes non_abort syntax_error : AsmError
  expression_table_overflow unbalanced_braces division_by_0 unknown_mnemonic : AsmError
  illegal_addressing_mode illegal_forced_addressing_mode : AsmError
  not_enough_arguments_passed_to_macro premature_eof illegal_character branch_out_of_range :
      AsmError
  err_pseudo_op_encountered origin_reverse_indexed equ_value_mismatch : AsmError
  address_must_be_lt_100 address_must_be_lt_10000 illegal_bit_specification : AsmError
  not_enough_args label_mismatch macro_repeated value_undefined processor_not_supported : AsmError
  repeat_negative baderror only_one_processor_supported bad_format value_must_be_1_or_4 : AsmError
  value_must_be_lt_10 value_must_be_lt_8 value_must_be_lt_f value_must_be_lt_10000 : AsmError
  illegal_operand_combination recursion_too_deep avoid_segfault missing_endm : AsmError
  missing_comment_end spurious_comment_close type_mismatch : AsmError

-- The value that the enumeration gives the constructor.
unfoldable pub error_number : AsmError → ℕ
error_number no_error = 0
error_number command_line = 1
error_number file_error = 2
error_number not_resolvable = 3
error_number too_many_passes = 4
error_number non_abort = 5
error_number syntax_error = 6
error_number expression_table_overflow = 7
error_number unbalanced_braces = 8
error_number division_by_0 = 9
error_number unknown_mnemonic = 10
error_number illegal_addressing_mode = 11
error_number illegal_forced_addressing_mode = 12
error_number not_enough_arguments_passed_to_macro = 13
error_number premature_eof = 14
error_number illegal_character = 15
error_number branch_out_of_range = 16
error_number err_pseudo_op_encountered = 17
error_number origin_reverse_indexed = 18
error_number equ_value_mismatch = 19
error_number address_must_be_lt_100 = 20
error_number address_must_be_lt_10000 = 21
error_number illegal_bit_specification = 22
error_number not_enough_args = 23
error_number label_mismatch = 24
error_number macro_repeated = 25
error_number value_undefined = 26
error_number processor_not_supported = 27
error_number repeat_negative = 28
error_number baderror = 29
error_number only_one_processor_supported = 30
error_number bad_format = 31
error_number value_must_be_1_or_4 = 32
error_number value_must_be_lt_10 = 33
error_number value_must_be_lt_8 = 34
error_number value_must_be_lt_f = 35
error_number value_must_be_lt_10000 = 36
error_number illegal_operand_combination = 37
error_number recursion_too_deep = 38
error_number avoid_segfault = 39
error_number missing_endm = 40
error_number missing_comment_end = 41
error_number spurious_comment_close = 42
error_number type_mismatch = 43

-- A row: nErrorType and bFatal.
pub record ErrorDefinition : Type 0 where
  pub error_type : AsmError
  pub fatal : Bool

abbrev row : AsmError → Bool → ErrorDefinition
row e f = record { error_type = e; fatal = f }

unfoldable pub error_definitions : List ErrorDefinition
error_definitions =
    row no_error true
    ∷ row command_line true
    ∷ row file_error true
    ∷ row not_resolvable true
    ∷ row too_many_passes true
    ∷ row non_abort true
    ∷ row syntax_error true
    ∷ row expression_table_overflow true
    ∷ row unbalanced_braces true
    ∷ row division_by_0 true
    ∷ row unknown_mnemonic true
    ∷ row illegal_addressing_mode false
    ∷ row illegal_forced_addressing_mode true
    ∷ row not_enough_arguments_passed_to_macro true
    ∷ row premature_eof false
    ∷ row illegal_character true
    ∷ row branch_out_of_range false
    ∷ row err_pseudo_op_encountered true
    ∷ row origin_reverse_indexed false
    ∷ row equ_value_mismatch false
    ∷ row address_must_be_lt_100 true
    ∷ row address_must_be_lt_10000 true
    ∷ row illegal_bit_specification true
    ∷ row not_enough_args true
    ∷ row label_mismatch false
    ∷ row macro_repeated true
    ∷ row value_undefined true
    ∷ row processor_not_supported true
    ∷ row repeat_negative false
    ∷ row baderror true
    ∷ row only_one_processor_supported true
    ∷ row bad_format true
    ∷ row value_must_be_1_or_4 true
    ∷ row value_must_be_lt_10 true
    ∷ row value_must_be_lt_8 true
    ∷ row value_must_be_lt_f true
    ∷ row value_must_be_lt_10000 true
    ∷ row illegal_operand_combination true
    ∷ row recursion_too_deep true
    ∷ row avoid_segfault true
    ∷ row missing_endm true
    ∷ row missing_comment_end true
    ∷ row spurious_comment_close true
    ∷ row type_mismatch true
    ∷ []

-- What asmerr tests to set bStopAtEnd: the row at the error's number.
unfoldable pub stops_at_end : AsmError → Bool
unfolding error_number error_definitions
stops_at_end e = elim (get_elem? error_definitions (error_number e)) [
  | some r ↦ r.fatal
  | none ↦ true
]

-- The row that asmerr reads for an error number is the row of that error.
pub error_definitions-error_number :
    (e : AsmError)
    → (f : Bool) × (get_elem? error_definitions (error_number e)
        ≡ some (record { error_type = e; fatal = f }))
unfolding error_number error_definitions
error_definitions-error_number no_error = (true, refl)
error_definitions-error_number command_line = (true, refl)
error_definitions-error_number file_error = (true, refl)
error_definitions-error_number not_resolvable = (true, refl)
error_definitions-error_number too_many_passes = (true, refl)
error_definitions-error_number non_abort = (true, refl)
error_definitions-error_number syntax_error = (true, refl)
error_definitions-error_number expression_table_overflow = (true, refl)
error_definitions-error_number unbalanced_braces = (true, refl)
error_definitions-error_number division_by_0 = (true, refl)
error_definitions-error_number unknown_mnemonic = (true, refl)
error_definitions-error_number illegal_addressing_mode = (false, refl)
error_definitions-error_number illegal_forced_addressing_mode = (true, refl)
error_definitions-error_number not_enough_arguments_passed_to_macro = (true, refl)
error_definitions-error_number premature_eof = (false, refl)
error_definitions-error_number illegal_character = (true, refl)
error_definitions-error_number branch_out_of_range = (false, refl)
error_definitions-error_number err_pseudo_op_encountered = (true, refl)
error_definitions-error_number origin_reverse_indexed = (false, refl)
error_definitions-error_number equ_value_mismatch = (false, refl)
error_definitions-error_number address_must_be_lt_100 = (true, refl)
error_definitions-error_number address_must_be_lt_10000 = (true, refl)
error_definitions-error_number illegal_bit_specification = (true, refl)
error_definitions-error_number not_enough_args = (true, refl)
error_definitions-error_number label_mismatch = (false, refl)
error_definitions-error_number macro_repeated = (true, refl)
error_definitions-error_number value_undefined = (true, refl)
error_definitions-error_number processor_not_supported = (true, refl)
error_definitions-error_number repeat_negative = (false, refl)
error_definitions-error_number baderror = (true, refl)
error_definitions-error_number only_one_processor_supported = (true, refl)
error_definitions-error_number bad_format = (true, refl)
error_definitions-error_number value_must_be_1_or_4 = (true, refl)
error_definitions-error_number value_must_be_lt_10 = (true, refl)
error_definitions-error_number value_must_be_lt_8 = (true, refl)
error_definitions-error_number value_must_be_lt_f = (true, refl)
error_definitions-error_number value_must_be_lt_10000 = (true, refl)
error_definitions-error_number illegal_operand_combination = (true, refl)
error_definitions-error_number recursion_too_deep = (true, refl)
error_definitions-error_number avoid_segfault = (true, refl)
error_definitions-error_number missing_endm = (true, refl)
error_definitions-error_number missing_comment_end = (true, refl)
error_definitions-error_number spurious_comment_close = (true, refl)
error_definitions-error_number type_mismatch = (true, refl)
