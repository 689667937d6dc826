-- ===== src/Tests/Names.antt =====
-- The theorems on symbols, labels and conditionals at concrete inputs.
use dasm.Base.{
  ◌≡◌, ◌↔◌, refl, true, false, some, List, [], ◌∷◌, ◌++◌, codes, if◌then◌else◌, same_bytes,
}
use dasm.State.{Globals, Symbol}
use dasm.Symbols.{chain_find, last_byte, createsymbol, place_label, qualified}
use dasm.Symbols.Labels.{InTable, Placed, place_label-Placed, place_label-agrees}
use dasm.Symbols.Names.{qualified-injective, scope}
use dasm.Symbols.Table.{view, view-createsymbol}
use dasm.Conditional.{IfStack, assembles}
use dasm.Conditional.Nesting.{
  Event, if_event, ifconst_event, else_event, endif_event, by_if, by_ifconst, empty, flip, block,
  Back, run, run-block, run-skips,
}
use dasm.Tests.{globals, known}

loop-InTable : InTable (codes ".loop")
unfolding same_bytes
loop-InTable = record { not_org = refl; not_special = refl; not_specchk = refl }

main-InTable : InTable (codes "MAIN")
unfolding same_bytes
main-InTable = record { not_org = refl; not_special = refl; not_specchk = refl }

place_label-Placed_example : Placed globals (place_label (codes ".loop") globals) (codes ".loop")
place_label-Placed_example = place_label-Placed (codes ".loop") globals loop-InTable

abbrev main_symbol : Symbol
main_symbol = record (known 0x1003) { name = codes "MAIN"; order = 1 }

abbrev one_symbol : Globals
one_symbol = record globals { shash = λ _. main_symbol ∷ [] }

place_label-agrees_example :
    ((place_label (codes "MAIN") one_symbol).redo ≡ one_symbol.redo) ↔ (0x1003 ≡ main_symbol.value)
unfolding view qualified chain_find same_bytes last_byte
place_label-agrees_example =
    place_label-agrees (codes "MAIN") one_symbol main_symbol main-InTable refl refl refl

qualified-injective_example :
    (codes ".loop" ≡ codes ".loop")
    × (scope globals (codes ".loop") ≡ scope globals (codes ".loop"))
unfolding qualified last_byte
qualified-injective_example =
    qualified-injective globals globals (codes ".loop") (codes ".loop") refl refl refl

view-createsymbol_example : view (createsymbol globals (codes "MAIN") true).0 (codes "OTHER") ≡ (
    if same_bytes (createsymbol globals (codes "MAIN") true).2.name (codes "OTHER")
    then some (createsymbol globals (codes "MAIN") true).2
    else view globals (codes "OTHER"))
view-createsymbol_example = view-createsymbol globals (codes "MAIN") (codes "OTHER") true

abbrev seven : Symbol → Symbol
seven s = record s { value = 7 }

-- The bottom of the IF stack, as main sets it up.
abbrev base_stack : IfStack
base_stack = record {
  top = record { file = 0; is_base = true; xtrue = true; acctrue = true };
  below = [];
}

abbrev nested : List Event
nested = ifconst_event (known 0) ∷ ([] ++ endif_event ∷ else_event ∷ [])

run-block_example :
    Back base_stack (run 0 (if_event (known 1) ∷ (nested ++ endif_event ∷ [])) base_stack)
run-block_example =
    run-block 0 (if_event (known 1)) nested base_stack by_if (block by_ifconst empty (flip empty))

abbrev skipped_stack : IfStack
skipped_stack = record base_stack {
  top = record { file = 0; is_base = false; xtrue = false; acctrue = true };
}

run-skips_example : assembles (run 0 (if_event (known 1) ∷ nested) skipped_stack).top ≡ false
run-skips_example =
    run-skips 0 (if_event (known 1)) nested skipped_stack by_if
      (block by_ifconst empty (flip empty)) refl
