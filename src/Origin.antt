-- ===== src/Origin.antt =====
-- The directives of src/ops.c that move the program counter: DS, ORG, RORG, REND, ALIGN and HEX,
-- behind eval. `label` is the label field of the line, and `syms` what eval returned.
pub mod Align
use dasm.Base.{
  ℕ, zero, suc, ◌+◌, ◌-◌, ◌*◌, ◌/◌, ◌%◌, Bool, true, false, not, ◌&&◌, ◌||◌, Option, none, some,
  List, [], ◌∷◌, ◌++◌, Bytes, leb, ◌==◌, if◌then◌else◌,
}
use dasm.Errors.{syntax_error, value_undefined}
use dasm.Modes.{am_imp, am_wordadr, am_long}
use dasm.Output.{Output, generate, genfill, here}
use dasm.Run.{Run, ok, exit, undefined, ◌>>=◌}
use dasm.State.{
  Segment, Symbol, Globals, Reason, has, with_bit, without_bit, again, report, ds_not_resolved,
  align_not_resolved, align_relocatable_origin_not_known, align_normal_origin_not_known,
  sym_unknown, sf_unknown, sf_ref, sf_rorg,
}
use dasm.Symbols.{programlabel}

abbrev pub on_globals : (Globals → Globals) → Output → Output
on_globals f out = let g = out.globals in record out { globals = f g }

abbrev on_segment : (Segment → Segment) → Output → Output
on_segment f = on_globals (λ g. record g { csegment = f g.csegment })

abbrev unknown : Symbol → Bool
unknown s = has s.flags sym_unknown

-- flags = s is unknown ? flags | 1 : flags & ~1
abbrev known_bit : Symbol → ℕ → ℕ
known_bit s flags = if unknown s then with_bit flags sf_unknown else without_bit flags sf_unknown

abbrev second : List Symbol → Option Symbol
second [] = none
second (s ∷ r) = some s

-- int mult
abbrev entry_size : ℕ → ℕ
entry_size mnext = if mnext == am_wordadr then 2 else if mnext == am_long then 4 else 1

-- ds_symbols behind programlabel and eval; Mnext is the extension of the directive.
unfoldable pub ds_symbols : ℕ → List Symbol → Output → Run Output
unfolding genfill
ds_symbols mnext [] out = ok out
ds_symbols mnext (s ∷ r) out =
    if unknown s then ok (on_globals (again ds_not_resolved) out) else elim (second r) [
      | none ↦ genfill 0 s.value (entry_size mnext) out
      | some filler ↦
          genfill filler.value s.value (entry_size mnext)
            (if unknown filler then on_globals (again ds_not_resolved) out else out)
    ]

-- The fill byte of ORG: an unknown one ends the assembly.
org_fill : Option Symbol → Output → Run Output
org_fill none out = ok out
org_fill (some s) out =
    if unknown s then exit value_undefined else ok (record out { orgfill = s.value % 256 })

-- Csegment->org, its flags, and the first origin of the segment
abbrev set_org : Symbol → Segment → Segment
set_org s seg =
    let first = has seg.initflags sym_unknown in
    record seg {
      org = s.value;
      flags = known_bit s seg.flags;
      initorg = if first then s.value else seg.initorg;
      initflags = if first then s.flags else seg.initflags;
    }

unfoldable pub org_symbols : Bytes → List Symbol → Output → Run Output
unfolding org_fill programlabel
org_symbols label [] out = undefined
org_symbols label (s ∷ r) out = org_fill (second r) (on_segment (set_org s) out) >>= λ out'.
    ok (on_globals (programlabel label) out')

abbrev set_rorg : Symbol → Segment → Segment
set_rorg s seg0 =
    let seg = record seg0 { flags = with_bit seg0.flags sf_rorg } in
    let first = has seg.initrflags sym_unknown in
    if s.addrmode == am_imp then seg else record seg {
      rorg = s.value;
      rflags = known_bit s seg.rflags;
      initrorg = if first then s.value else seg.initrorg;
      initrflags = if first then s.flags else seg.initrflags;
    }

unfoldable pub rorg_symbols : Bytes → List Symbol → Output → Run Output
unfolding programlabel
rorg_symbols label [] out = undefined
rorg_symbols label (s ∷ r) out = ok (on_globals (programlabel label) (on_segment (set_rorg s) out))

unfoldable pub v_rend : Bytes → Output → Output
unfolding programlabel
v_rend label out =
    on_segment (λ seg. record seg { flags = without_bit seg.flags sf_rorg })
      (on_globals (programlabel label) out)

-- `value - (counter % value)`, and genfill for it unless it is the whole value.
unfoldable pub fill_up : ℕ → ℕ → ℕ → Output → Run Output
unfolding genfill
fill_up fill counter value out =
    let n = value - counter % value in if n == value then ok out else genfill fill n 1 out

-- The fill byte of ALIGN, and the pass that an unknown one asks for.
abbrev align_fill : Option Symbol → ℕ
align_fill none = 0
align_fill (some s) = if unknown s then 0 else s.value % 256

abbrev align_again : Option Symbol → Output → Output
align_again none out = out
align_again (some s) out = if unknown s then on_globals (again align_not_resolved) out else out

abbrev reference : Segment → Segment
reference seg =
    if has seg.flags sf_rorg
    then record seg { rflags = with_bit seg.rflags sf_ref }
    else record seg { flags = with_bit seg.flags sf_ref }

-- The last part of align_symbols, on the counter that is in use.
unfoldable pub align_counter : Symbol → ℕ → Output → Run Output
unfolding fill_up
align_counter s fill out =
    let seg = here out in
    if has seg.flags sf_rorg
    then (if has seg.rflags sf_unknown || unknown s
        then ok (on_globals (again align_relocatable_origin_not_known) out)
        else fill_up fill seg.rorg s.value out)
    else if has seg.flags sf_unknown || unknown s
    then ok (on_globals (again align_normal_origin_not_known) out)
    else fill_up fill seg.org s.value out

unfoldable pub align_symbols : Bytes → List Symbol → Output → Run Output
unfolding align_counter programlabel
align_symbols label [] out = undefined
align_symbols label (s ∷ r) out =
    if s.value == 0
    then ok (on_globals (report syntax_error) out)
    else (align_counter s (align_fill (second r))
          (align_again (second r) (on_segment reference out))
        >>= λ out'. ok (on_globals (programlabel label) out'))

-- gethexdig: a byte that is no digit counts as 0, with a message.
unfoldable pub gethexdig : ℕ → Output → ℕ × Output
gethexdig c out =
    if leb b'0' c && leb c b'9'
    then (c - b'0', out)
    else if leb b'a' c && leb c b'f'
    then (c - b'a' + 10, out)
    else if leb b'A' c && leb c b'F'
    then (c - b'A' + 10, out)
    else (0, on_globals (report syntax_error) out)

-- The loop of v_hex, over the text; the bytes of Gen are those behind `gen`.
unfoldable pub hex_loop : Bytes → Bytes → Output → Bytes × Output
unfolding gethexdig
hex_loop gen [] out = (gen, out)
hex_loop gen (c ∷ []) out =
    if c == b' ' then (gen, out) else (gen, on_globals (report syntax_error) out)
hex_loop gen (c ∷ d ∷ s) out =
    let skipped = hex_loop gen (d ∷ s) out in
    let (high, out1) = gethexdig c out in
    let (low, out2) = gethexdig d out1 in
    let paired = hex_loop (gen ++ (high * 16 + low) ∷ []) s out2 in
    if c == b' ' then skipped else paired

unfoldable pub v_hex : Bytes → Bytes → Output → Run Output
unfolding hex_loop generate programlabel
v_hex label str out =
    let (gen, out') = hex_loop [] str (on_globals (programlabel label) out) in
    generate (record out' { gen = gen })
