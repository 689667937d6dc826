-- ===== src/Sources/Macros.antt =====
-- The handlers of macros in src/ops.c keep the scopes in order.
use dasm.Base.{
  ℕ, ◌≤◌, ◌≡◌, refl, inl, inr, true, Option, List, [], ◌∷◌, Bytes, arith, ◌==◌, Bool-cases, ==_iff,
  if-cases, List-cases,
}
use dasm.Errors.{recursion_too_deep}
use dasm.Run.{Run, ok, exit}
use dasm.Sources.{
  IncFile, Reading, v_execmac, endm_at, leave_macros, leave, read_line, max_mac_level,
}
use dasm.State.{Globals}
use dasm.Sources.Scopes.{macros, Saved, file, Scoped, IsScoped, Saved-later, labelled-IsScoped}

-- How a handler ends that keeps the invariant: with it, or at the greatest depth of macros.
pub data Outcome (r : Reading) : Run Reading → Type 0 where
  goes_on : {r' : Reading} → IsScoped r' → Outcome r (ok r')
  too_deep : r.mlevel ≡ max_mac_level → Outcome r (exit recursion_too_deep)

pub execmac-Outcome :
    (name : Bytes) (strlist : List Bytes) (label str : Bytes) (r : Reading)
    → IsScoped r
    → Outcome r (v_execmac name strlist label str r)
unfolding v_execmac macros
execmac-Outcome name strlist label str r s =
    let t = labelled-IsScoped label r s in
    elim (Bool-cases (r.mlevel == max_mac_level)) [
      | inl full ↦ rw full (too_deep ((==_iff r.mlevel max_mac_level).0 full))
      | inr room ↦ rw room (
          goes_on (record {
            level = omega (arith, s.level);
            bounded = ground (arith, s.bounded);
            local_scope = omega arith;
            dollar_scope = omega arith;
            on_file = omega (arith, s.on_file);
            saved =
                file (omega (arith, t.local_scope)) (omega (arith, t.dollar_scope))
                  (Saved-later (omega arith) (omega arith) t.saved);
          }))
    ]

Saved-below :
    {a b : ℕ} {i : IncFile} {is : List IncFile}
    → Saved a b (i ∷ is)
    → (i.saveidx ≤ a) × (i.savedolidx ≤ b) × Saved a b is
Saved-below (file x y s) = (x, y, s)

leave-IsScoped :
    (inc : IncFile) (next : List IncFile) (r : Reading)
    → inc.is_macro ≡ true
    → Scoped (inc ∷ next) r.mlevel r.globals
    → IsScoped (leave inc next r)
unfolding leave macros
leave-IsScoped inc next r m s =
    let (x, y, below) = Saved-below s.saved in
    record {
      level = ground (arith, s.level);
      bounded = omega (arith, s.bounded);
      local_scope = x;
      dollar_scope = y;
      on_file = ground (arith, s.on_file);
      saved = below;
    }

pub endm-Outcome :
    (is : List IncFile) (r : Reading)
    → r.incfiles ≡ is
    → Scoped is r.mlevel r.globals
    → Outcome r (endm_at is r)
unfolding endm_at macros
endm-Outcome [] r e s = absurd (omega (arith, s.on_file))
endm-Outcome (inc ∷ next) r e s = elim (Bool-cases inc.is_macro) [
  | inl m ↦ rw m (goes_on (leave-IsScoped inc next r m s))
  | inr f ↦ rw f (goes_on (rw e s))
]

-- The file at the top in another place.
pub moved-Scoped :
    (inc inc' : IncFile) (next : List IncFile) (m : ℕ) (g : Globals)
    → inc'.is_macro ≡ inc.is_macro
    → inc'.saveidx ≡ inc.saveidx
    → inc'.savedolidx ≡ inc.savedolidx
    → Scoped (inc ∷ next) m g
    → Scoped (inc' ∷ next) m g
unfolding macros
moved-Scoped inc inc' next m g a b c s =
    let (x, y, below) = Saved-below s.saved in
    record {
      level = rw a s.level;
      bounded = s.bounded;
      local_scope = s.local_scope;
      dollar_scope = s.dollar_scope;
      on_file = rw a s.on_file;
      saved = file (rw b x) (rw c y) below;
    }

pub end-Outcome :
    (is : List IncFile) (r q : Reading)
    → Scoped is r.mlevel r.globals
    → Outcome q (leave_macros is r)
unfolding leave_macros macros
end-Outcome [] r q s = absurd (omega (arith, s.on_file))
end-Outcome (inc ∷ next) r q s =
    if-cases (Outcome q) inc.is_macro
      (λ m. end-Outcome next (leave inc next r) q (leave-IsScoped inc next r m s))
      (λ f. goes_on (moved-Scoped inc _ next r.mlevel r.globals refl refl refl s))

-- How the reading of a line ends: never without a file.
pub data LineOutcome : Run (Option Bytes × Reading) → Type 0 where
  line_read : {l : Option Bytes} {r : Reading} → IsScoped r → LineOutcome (ok (l, r))

pub line-LineOutcome :
    (is : List IncFile) (r : Reading)
    → r.incfiles ≡ is
    → Scoped is r.mlevel r.globals
    → LineOutcome (read_line is r)
unfolding read_line macros
line-LineOutcome [] r e s = absurd (omega (arith, s.on_file))
line-LineOutcome (inc ∷ next) r e s = elim (List-cases inc.text) [
  | inl done ↦ rw done (
      if-cases LineOutcome inc.is_macro
        (λ m. line-LineOutcome next (leave inc next r) refl (leave-IsScoped inc next r m s))
        (λ f. line_read (rw e s)))
  | inr (line, text, more) ↦
      rw more (line_read (moved-Scoped inc _ next r.mlevel r.globals refl refl refl s))
]
