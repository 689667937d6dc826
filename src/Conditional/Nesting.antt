-- ===== src/Conditional/Nesting.antt =====
-- Nested conditionals leave the IF stack as it was, and nothing is assembled under a skipped one.
use dasm.Base.{
  ℕ, ◌≡◌, refl, ap, ◌∙◌, Bool, true, false, not, ◌&&◌, List, [], ◌∷◌, ◌++◌, arith, ◌==◌, ==_refl,
  Bool-cases, inl, inr,
}
use dasm.Conditional.{
  If, IfStack, assembles, pushif, if_symbol, ifconst_symbol, ifnconst_symbol, flip_branch, pop_if,
}
use dasm.State.{Symbol}

-- The directives of a source text, with what eval returns for their conditions.
pub data Event : Type 0 where
  if_event ifconst_event ifnconst_event : Symbol → Event
  else_event endif_event : Event

unfoldable pub step : ℕ → Event → IfStack → IfStack
unfolding if_symbol ifconst_symbol ifnconst_symbol flip_branch pop_if
step file (if_event s) = if_symbol file s
step file (ifconst_event s) = ifconst_symbol file s
step file (ifnconst_event s) = ifnconst_symbol file s
step file else_event = flip_branch
step file endif_event = pop_if file

unfoldable pub run : ℕ → List Event → IfStack → IfStack
unfolding step
run file [] s = s
run file (e ∷ es) s = run file es (step file e s)

pub data Opens : Event → Type 0 where
  by_if : {s : Symbol} → Opens (if_event s)
  by_ifconst : {s : Symbol} → Opens (ifconst_event s)
  by_ifnconst : {s : Symbol} → Opens (ifnconst_event s)

-- What stands between an IF and its ENDIF.
pub data Body : List Event → Type 0 where
  empty : Body []
  flip : {es : List Event} → Body es → Body (else_event ∷ es)
  block :
      {o : Event} {es fs : List Event}
      → Opens o
      → Body es
      → Body fs
      → Body (o ∷ (es ++ endif_event ∷ fs))

-- The same stack, but for the branch that is taken at the top.
pub record SameFrame (s t : IfStack) : Type 0 where
  pub below : t.below ≡ s.below
  pub file : t.top.file ≡ s.top.file
  pub base : t.top.is_base ≡ s.top.is_base
  pub acctrue : t.top.acctrue ≡ s.top.acctrue

SameFrame-refl : (s : IfStack) → SameFrame s s
SameFrame-refl s = record { below = refl; file = refl; base = refl; acctrue = refl }

SameFrame-trans : (a b c : IfStack) → SameFrame a b → SameFrame b c → SameFrame a c
SameFrame-trans a b c h k = record {
  below = k.below ∙ h.below;
  file = k.file ∙ h.file;
  base = k.base ∙ h.base;
  acctrue = k.acctrue ∙ h.acctrue;
}

-- A directive that opens a conditional.
pub record Opened (file : ℕ) (s t : IfStack) : Type 0 where
  pub below : t.below ≡ s.top ∷ s.below
  pub here : t.top.file ≡ file
  pub base : t.top.is_base ≡ false
  pub skips : assembles s.top ≡ false → t.top.acctrue ≡ false

pushif-Opened : (file : ℕ) (b : Bool) (s : IfStack) → Opened file s (pushif file b s)
unfolding pushif
pushif-Opened file b s = record {
  below = refl;
  here = refl;
  base = refl;
  skips = λ h. ground arith;
}

if_symbol-Opened : (file : ℕ) (m : Symbol) (s : IfStack) → Opened file s (if_symbol file m s)
unfolding if_symbol pushif
if_symbol-Opened file m s = record {
  below = ground arith;
  here = ground arith;
  base = ground arith;
  skips = λ h. ground arith;
}

step-Opened : (file : ℕ) (o : Event) (s : IfStack) → Opens o → Opened file s (step file o s)
unfolding step ifconst_symbol ifnconst_symbol
step-Opened file (if_event m) s by_if = if_symbol-Opened file m s
step-Opened file (ifconst_event m) s by_ifconst = pushif-Opened file (m.flags == 0) s
step-Opened file (ifnconst_event m) s by_ifnconst = pushif-Opened file (not (m.flags == 0)) s
step-Opened file else_event s x = elim x [ ]
step-Opened file endif_event s x = elim x [ ]

flip_branch-SameFrame : (s : IfStack) → SameFrame s (flip_branch s)
unfolding flip_branch
flip_branch-SameFrame s = elim (Bool-cases (s.top.acctrue && not s.top.is_base)) [
  | inl h ↦ rw h (record { below = refl; file = refl; base = refl; acctrue = refl })
  | inr h ↦ rw h (SameFrame-refl s)
]

run-append :
    (file : ℕ) (es fs : List Event) (s : IfStack)
    → run file (es ++ fs) s ≡ run file fs (run file es s)
unfolding run
run-append file [] fs s = refl
run-append file (e ∷ es) fs s = run-append file es fs (step file e s)

-- ENDIF in the file of its IF.
pop_if-pops :
    (file : ℕ) (i : If) (below : List If) (s : IfStack)
    → s.below ≡ i ∷ below
    → s.top.is_base ≡ false
    → s.top.file ≡ file
    → ((pop_if file s).top ≡ i) × ((pop_if file s).below ≡ below)
unfolding pop_if
pop_if-pops file i below s h b f =
    let same : (s.top.file == file) ≡ true = rw f (==_refl file) in simp (h, b, same) (refl, refl)

-- The same stack.
pub record Back (s t : IfStack) : Type 0 where
  pub top : t.top ≡ s.top
  pub below : t.below ≡ s.below

close : (file : ℕ) (s t u : IfStack) → Opened file s t → SameFrame t u → Back s (pop_if file u)
close file s t u o f =
    let (top, below) =
      pop_if-pops file s.top s.below u (f.below ∙ o.below) (f.base ∙ o.base) (f.file ∙ o.here) in
    record { top = top; below = below }

Back-SameFrame : (s t : IfStack) → Back s t → SameFrame s t
Back-SameFrame s t b = record {
  below = b.below;
  file = ap (λ (i : If). i.file) b.top;
  base = ap (λ (i : If). i.is_base) b.top;
  acctrue = ap (λ (i : If). i.acctrue) b.top;
}

run-Body :
    (file : ℕ) (es : List Event) (s : IfStack)
    → Body es
    → s.top.is_base ≡ false
    → SameFrame s (run file es s)
unfolding run
run-Body file [] s empty b = SameFrame-refl s
run-Body file (else_event ∷ es) s (flip k) b =
    let first = flip_branch-SameFrame s in
    SameFrame-trans s (step file else_event s) _ first (run-Body file es _ k (first.base ∙ b))
run-Body file _ s (block {o} {es} {fs} w k l) b =
    let t = step file o s in
    let opened = step-Opened file o s w in
    let inner = run-Body file es t k opened.base in
    let back = Back-SameFrame s _ (close file s t (run file es t) opened inner) in
    rw (run-append file es (endif_event ∷ fs) t) (
      SameFrame-trans s (pop_if file (run file es t)) _ back (run-Body file fs _ l (back.base ∙ b)))

-- A directive that opens a conditional, a well-nested text with ELSE, and ENDIF leave the top of the
-- IF stack and what is below it as they were, where all are in one file.
pub run-block :
    (file : ℕ) (o : Event) (es : List Event) (s : IfStack)
    → Opens o
    → Body es
    → Back s (run file (o ∷ (es ++ endif_event ∷ [])) s)
unfolding run
run-block file o es s w k =
    let t = step file o s in
    let opened = step-Opened file o s w in
    rw (run-append file es (endif_event ∷ []) t)
      (close file s t (run file es t) opened (run-Body file es t k opened.base))

-- Where nothing is assembled, nothing is assembled in a conditional either, behind any text with
-- complete conditionals and with ELSE.
pub run-skips :
    (file : ℕ) (o : Event) (es : List Event) (s : IfStack)
    → Opens o
    → Body es
    → assembles s.top ≡ false
    → assembles (run file (o ∷ es) s).top ≡ false
unfolding run
run-skips file o es s w k h =
    let t = step file o s in
    let opened = step-Opened file o s w in
    let inner = run-Body file es t k opened.base in
    let skipped = inner.acctrue ∙ opened.skips h in ground (arith, skipped)

-- An IF whose condition is resolved, where text is assembled: of its two branches exactly one is.
pub if_symbol-flip_branch :
    (file : ℕ) (m : Symbol) (s : IfStack)
    → m.flags ≡ 0
    → assembles s.top ≡ true
    → assembles (if_symbol file m s).top ≡ not (assembles (flip_branch (if_symbol file m s)).top)
unfolding if_symbol flip_branch pushif
if_symbol-flip_branch file m s f h = ground arith
