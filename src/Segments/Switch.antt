-- ===== src/Segments/Switch.antt =====
-- Switching between segments with SEG of src/ops.c.
use dasm.Base.{
  ◌≡◌, ◌≢◌, refl, sym, ap, ◌∙◌, Bool, true, false, Option, none, some, List, [], ◌∷◌, Bytes,
  same_bytes, same_bytes_iff, Bool-cases, Option-cases, inl, inr,
}
use dasm.Segments.{Segments, find_segment, store_segment, select_segment, new_segment}
use dasm.State.{Segment, Globals}

same_bytes-ne : (a b : Bytes) → a ≢ b → same_bytes a b ≡ false
same_bytes-ne a b h = elim (Bool-cases (same_bytes a b)) [
  | inl e ↦ absurd (h ((same_bytes_iff a b).0 e))
  | inr e ↦ e
]

same_bytes-eq : (a : Bytes) → same_bytes a a ≡ true
same_bytes-eq a = (same_bytes_iff a a).1 refl

-- The list has a segment of this name.
abbrev pub IsListed : Bytes → List Segment → Type 0
IsListed name l = (s : Segment) × (find_segment name l ≡ some s)

find-store_same :
    (seg : Segment) (l : List Segment)
    → IsListed seg.name l
    → find_segment seg.name (store_segment seg l) ≡ some seg
unfolding find_segment store_segment
find-store_same seg [] (s, h) = cc
find-store_same seg (t ∷ l) (s, h) = elim (Bool-cases (same_bytes seg.name t.name)) [
  | inl e ↦ rw (e, same_bytes-eq seg.name) refl
  | inr e ↦ rw (e, e) (find-store_same seg l (s, rw e at h))
]

find-store_other :
    (name : Bytes) (seg : Segment) (l : List Segment)
    → name ≢ seg.name
    → find_segment name (store_segment seg l) ≡ find_segment name l
unfolding find_segment store_segment
find-store_other name seg [] d = refl
find-store_other name seg (t ∷ l) d = elim (Bool-cases (same_bytes seg.name t.name)) [
  | inl e ↦
      let other = same_bytes-ne name seg.name d in
      let same = (same_bytes_iff seg.name t.name).0 e in rw (e, other, sym same) (rw other refl)
  | inr e ↦ rw (e, find-store_other name seg l d) refl
]

abbrev name_of : Option Segment → Bytes
name_of none = []
name_of (some s) = s.name

find-name :
    (name : Bytes) (l : List Segment) (s : Segment) → find_segment name l ≡ some s → s.name ≡ name
unfolding find_segment
find-name name [] s h = cc
find-name name (t ∷ l) s h = elim (Bool-cases (same_bytes name t.name)) [
  | inl e ↦ sym (ap name_of (rw e at h)) ∙ sym ((same_bytes_iff name t.name).0 e)
  | inr e ↦ find-name name l s (rw e at h)
]

find-behind :
    (name : Bytes) (t : Segment) (l : List Segment)
    → name ≢ t.name
    → find_segment name (t ∷ l) ≡ find_segment name l
unfolding find_segment
find-behind name t l d = rw (same_bytes-ne name t.name d) refl

select_found :
    (name : Bytes) (bss : Bool) (s : Segments) (seg : Segment)
    → find_segment name (store_segment s.globals.csegment s.seglist) ≡ some seg
    → ((select_segment name bss s).globals.csegment ≡ seg)
      × ((select_segment name bss s).seglist ≡ store_segment s.globals.csegment s.seglist)
unfolding select_segment
select_found name bss s seg h = rw (h, select_segment) (refl, refl)

select_new :
    (name : Bytes) (bss : Bool) (s : Segments)
    → find_segment name (store_segment s.globals.csegment s.seglist) ≡ none
    → ((select_segment name bss s).globals.csegment ≡ new_segment name bss)
      × ((select_segment name bss s).seglist
          ≡ new_segment name bss ∷ store_segment s.globals.csegment s.seglist)
unfolding select_segment
select_new name bss s h = rw (h, select_segment) (refl, refl)

-- After SEG the segment that was current stands in the list as it was left, and the current one has
-- the name of SEG.
select-stored :
    (name : Bytes) (bss : Bool) (s : Segments)
    → IsListed s.globals.csegment.name s.seglist
    → name ≢ s.globals.csegment.name
    → ((select_segment name bss s).globals.csegment.name ≡ name)
      × (find_segment s.globals.csegment.name (select_segment name bss s).seglist
          ≡ some s.globals.csegment)
select-stored name bss s l d =
    let stored = find-store_same s.globals.csegment s.seglist l in
    elim (Option-cases (find_segment name (store_segment s.globals.csegment s.seglist))) [
      | inr (seg, h) ↦
          let (current, listed) = select_found name bss s seg h in
          (
            ap (λ (x : Segment). x.name) current ∙ find-name name _ seg h,
            ap (find_segment s.globals.csegment.name) listed ∙ stored,
          )
      | inl h ↦
          let (current, listed) = select_new name bss s h in
          (
            ap (λ (x : Segment). x.name) current,
            ap (find_segment s.globals.csegment.name) listed
                ∙ find-behind s.globals.csegment.name (new_segment name bss) _ (λ e. d (sym e))
                ∙ stored,
          )
    ]

-- SEG, work in the other segment that leaves its name alone, and SEG back to the first segment: the
-- first segment is the current one again, with its origin and all else as it was left.
pub select-returns :
    (name : Bytes) (bss bss' : Bool) (s : Segments) (g : Globals)
    → IsListed s.globals.csegment.name s.seglist
    → name ≢ s.globals.csegment.name
    → g.csegment.name ≡ name
    → (select_segment s.globals.csegment.name bss'
        (record (select_segment name bss s) { globals = g })).globals.csegment
      ≡ s.globals.csegment
select-returns name bss bss' s g l d n =
    let (current, stored) = select-stored name bss s l d in
    let t : Segments = record (select_segment name bss s) { globals = g } in
    (select_found s.globals.csegment.name bss' t s.globals.csegment (
      find-store_other s.globals.csegment.name g.csegment t.seglist (λ e. d (sym n ∙ sym e))
      ∙ stored)).0
