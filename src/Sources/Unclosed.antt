-- ===== src/Sources/Unclosed.antt =====
-- An IF that a macro of src/ops.c leaves open.
use dasm.Base.{
  ℕ, ◌≡◌, ◌≢◌, refl, sym, ap, ◌∙◌, true, false, List, ◌∷◌, Bytes, arith, ◌==◌, ne→==, if-cases,
  List-cases, inl, inr,
}
use dasm.Conditional.{IfStack, pop_if}
use dasm.Run.{ok}
use dasm.Sources.{IncFile, Reading, v_endm, endm_at, leave, close_if}

pop_if-other : (file : ℕ) (s : IfStack) → (s.top.file == file) ≡ false → pop_if file s ≡ s
unfolding pop_if
pop_if-other file s h = elim (List-cases s.below) [
  | inl none_below ↦ rw (none_below, pop_if) refl
  | inr (i, below, some_below) ↦ rw (some_below, pop_if, h) (ground arith)
]

-- A macro that is left inside an IF of its own leaves that IF on the stack, and an ENDIF of the caller
-- behind it takes nothing off.
pub endm-close_if :
    (label : Bytes) (inc outer : IncFile) (next : List IncFile) (r : Reading)
    → r.incfiles ≡ inc ∷ outer ∷ next
    → inc.is_macro ≡ true
    → r.ifs.top.file ≡ inc.file
    → outer.file ≢ inc.file
    → (r' : Reading) × (v_endm r ≡ ok r') × ((close_if label outer r').ifs ≡ r.ifs)
unfolding endm_at leave close_if
endm-close_if label inc outer next r e m f d = (
  leave inc (outer ∷ next) r,
  ap (λ is. endm_at is r) e ∙ rw m refl,
  if-cases (λ (q : Reading). q.ifs ≡ r.ifs) r.ifs.top.is_base (λ b. refl)
      (λ b. pop_if-other outer.file r.ifs (ne→== r.ifs.top.file outer.file (λ h. d (sym h ∙ f)))),
)
