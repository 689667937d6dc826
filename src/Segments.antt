-- ===== src/Segments.antt =====
-- The segments: SEG of src/ops.c, and clearsegs of src/main.c.
pub mod Switch
use dasm.Base.{
  ℕ, ◌+◌, Bool, true, false, Option, none, some, List, [], ◌∷◌, Bytes, map, if◌then◌else◌,
  same_bytes,
}
use mathlib.Core.Option
use dasm.State.{Segment, Globals, has, sf_unknown, sf_bss}
use dasm.Symbols.{programlabel}

-- Seglist with the globals. Csegment points into the list; the list's entry for it is brought up to
-- date when another segment becomes the current one.
pub record Segments : Type 0 where
  pub seglist : List Segment
  pub globals : Globals

unfoldable pub find_segment : Bytes → List Segment → Option Segment
find_segment name [] = none
find_segment name (s ∷ r) =
    let rest = find_segment name r in if same_bytes name s.name then some s else rest

-- The entry of the list for a segment.
unfoldable pub store_segment : Segment → List Segment → List Segment
store_segment seg [] = []
store_segment seg (s ∷ r) =
    let rest = store_segment seg r in if same_bytes seg.name s.name then seg ∷ r else s ∷ rest

-- A segment that SEG makes; `bss` is the extension U, AM_BSS.
abbrev pub new_segment : Bytes → Bool → Segment
new_segment name bss = record {
  name = name;
  flags = if bss then sf_unknown + sf_bss else sf_unknown;
  rflags = sf_unknown;
  org = 0;
  rorg = 0;
  initorg = 0;
  initrorg = 0;
  initflags = sf_unknown;
  initrflags = sf_unknown;
}

-- SEG, in front of programlabel.
unfoldable pub select_segment : Bytes → Bool → Segments → Segments
unfolding find_segment store_segment
select_segment name bss s =
    let g = s.globals in
    let segs = store_segment g.csegment s.seglist in
    elim (find_segment name segs) [
      | some seg ↦ record { seglist = segs; globals = record g { csegment = seg } }
      | none ↦
          let seg = new_segment name bss in
          record { seglist = seg ∷ segs; globals = record g { csegment = seg } }
    ]

unfoldable pub v_seg : Bytes → Bytes → Bool → Segments → Segments
unfolding select_segment programlabel
v_seg label name bss s =
    let t = select_segment name bss s in record t { globals = programlabel label t.globals }

-- What clearsegs does to each segment.
abbrev pub clear_segment : Segment → Segment
clear_segment s = record s {
  flags = if has s.flags sf_bss then sf_bss + sf_unknown else sf_unknown;
  rflags = sf_unknown;
  initflags = sf_unknown;
  initrflags = sf_unknown;
}

unfoldable pub clearsegs : Segments → Segments
clearsegs s =
    let g = s.globals in
    record s {
      seglist = map clear_segment s.seglist;
      globals = record g { csegment = clear_segment g.csegment };
    }
