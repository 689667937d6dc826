-- ===== src/Expr/Precedence/Correct.antt =====
-- The calls that eval makes for the tokens of an expression compute its value.
use Prim.Native.Nat.{max}
use dasm.Base.{
  ℕ, ◌+◌, ◌≤◌, ◌<◌, ◌≡◌, ◌⊎◌, inl, inr, refl, Bool, true, false, not, Option, List, [], ◌∷◌, ◌++◌,
  arith, leb, length, lt→leb, Bool-cases, leb→le,
}
use dasm.Errors.{AsmError}
use dasm.Expr.Machine.{Unary, Binary, Op, unary, Arg, OpCell, Machine, unspare, stale}
use dasm.Expr.Precedence.Calls.{
  num, binary_cell, unary_cell, waiting, apply_all, length-waiting, mk, evaltop-unary,
  stackarg-waiting,
}
use dasm.Expr.Precedence.Settles.{
  Settles, Settles-with_last, with_last, here, next, Settles-weaken, Settles-binary, reduce-Settles,
  top_unary-not-reducible, not-reducible-strengthen,
}
use dasm.Expr.Precedence.Reads.{
  Reads, done, read_operand, read_prefix, read_infix, read_lbracket, read_rbracket, Reads-append,
}
use dasm.Expr.Precedence.{
  is_readable, begins_prefix, leaves_last, sets_last, Exp, number, prefix, apply, Token, lbracket,
  rbracket, tokens, value, unary_value, args_needed, ops_needed, priority,
}
use dasm.Expr.Stack.{reducible, doop, push_op, open_bracket, close_bracket}
use dasm.Run.{ok, bind-eq-ok}
use dasm.Expr.Precedence.Shapes.{
  priority_bounds, body_tokens, tokens_bare, tokens_bracketed, ops_needed_bare,
  ops_needed_bracketed, leaves_last_bare, leaves_last_bracketed, is_readable_parts, pending,
  doop-Settles,
}

module _ (ab ob : ℕ) (errs : List AsmError) where
  -- What holds of the tokens of `e` written where operators below `p` need brackets.
  abbrev pub Correct : ℕ → Exp → Type 0
  Correct p e =
      (us : List Unary) (args : List Arg) (base : List OpCell) (sp : List (Option Op)) (lw : Bool)
      (v : ℕ)
      → value e ≡ ok v
      → is_readable p e ≡ true
      → (begins_prefix e ≡ true → lw ≡ true)
      → ab + length args + args_needed e ≤ 64
      → ob + length us + length base + ops_needed p e ≤ 32
      → reducible p base ≡ false
      → (us ≡ []) ⊎ (p ≡ 128)
      → (m : Machine) × Reads (tokens p e) (mk ab ob errs args (waiting us base) sp lw) m
        × (m.lastwasop ≡ false)
        × Settles ab ob errs p base args (apply_all us v) (leaves_last (pending us) p e)
            (with_last m true)

  body-Correct :
      (b : Binary) (l r : Exp) (args : List Arg) (base : List OpCell) (sp : List (Option Op))
      (lw : Bool) (v : ℕ)
      → Correct (priority b) l
      → Correct (priority b + 1) r
      → value (apply b l r) ≡ ok v
      → is_readable (priority b) (apply b l r) ≡ true
      → (begins_prefix l ≡ true → lw ≡ true)
      → ab + length args + max (args_needed l) (1 + args_needed r) ≤ 64
      → ob + length base + max (ops_needed (priority b) l) (1 + ops_needed (priority b + 1) r) ≤ 32
      → reducible (priority b) base ≡ false
      → (m : Machine) × Reads (body_tokens b l r) (mk ab ob errs args base sp lw) m
        × (m.lastwasop ≡ false)
        × Settles ab ob errs (priority b) base args v (sets_last b) (with_last m true)
  unfolding value
  body-Correct b l r args base sp lw v hl hr e rd first fa fo red =
      let (rl, rr, second) = is_readable_parts b l r (priority b) rd in
      let pb = priority_bounds b in
      let (x, ex, e') = bind-eq-ok (value l) _ e in
      let (y, ey, exy) = bind-eq-ok (value r) _ e' in
      let (m1, run1, lw1, s1) =
        hl [] args base sp lw x ex rl first (omega arith) (omega arith) red (inl refl) in
      let (sp2, run2) =
        doop-Settles ab ob errs b (priority b) m1 (omega arith) red (omega arith) s1 in
      let (m3, run3, lw3, s3) =
        hr [] (num x ∷ args) (binary_cell b (priority b) ∷ base) sp2
          (leaves_last false (priority b) l) y ey rr second (omega arith) (omega arith)
          (ground arith) (inl refl) in
      (
        m3,
        Reads-append run1 (read_infix lw1 run2 run3),
        lw3,
        Settles-binary ab ob errs b (priority b) (priority b + 1) x y v (omega (arith))
            (top_unary-not-reducible (priority b) base (omega arith) red) (omega arith)
            (omega arith) (omega arith) exy s3,
      )

  -- What a pending prefix operator does to an argument that a bracket leaves on the stack.
  waiting-Settles :
      (p : ℕ) (us : List Unary) (v : ℕ) (args : List Arg) (base : List OpCell)
      (sp : List (Option Op))
      → ab + length args < 64
      → p ≤ 128
      → reducible p base ≡ false
      → (us ≡ []) ⊎ (p ≡ 128)
      → Settles ab ob errs p base args
          (apply_all us v)
          (not (pending us))
          (mk ab ob errs (num v ∷ args) (waiting us base) sp true)
  waiting-Settles p [] v args base sp h k red w = here sp refl
  waiting-Settles p (u ∷ us) v args base sp h k red w =
      let (sp', run) =
        evaltop-unary ab ob errs u us v args base sp h (top_unary-not-reducible p base k red) in
      next {m1 = mk ab ob errs (num (apply_all (u ∷ us) v) ∷ args) base sp' false} (ground arith)
        (omega (arith, length-waiting us base)) run (here sp' refl)

  bracket_tokens :
      (q : ℕ) (ts : List Token) (args : List Arg) (ops : List OpCell) (sp : List (Option Op))
      (lw : Bool) (v : ℕ) {k : Bool} {m : Machine}
      → ob + length ops < 32
      → Reads ts (mk ab ob errs args (record { op = stale sp; pri = 0 } ∷ ops) (unspare sp) lw) m
      → Settles ab ob errs q (record { op = stale sp; pri = 0 } ∷ ops) args v k (with_last m true)
      → (sp' : List (Option Op)) × Reads
          (lbracket ∷ (ts ++ rbracket ∷ []))
          (mk ab ob errs args ops sp lw)
          (mk ab ob errs (num v ∷ args) ops sp' false)
  unfolding close_bracket open_bracket push_op
  bracket_tokens q ts args ops sp lw v {m} room run s =
      let (lw', s') = Settles-with_last ab ob errs m.lastwasop s in
      let (sp', e) =
        reduce-Settles ab ob errs 0 (length m.ops) (omega arith) refl
          (Settles-weaken ab ob errs 0 q (omega arith) s') in
      (
        stale sp ∷ sp',
        read_lbracket (
            rw (lt→leb 32 (ob + length ops) room) (
              Reads-append run (
                read_rbracket {m1 = mk ab ob errs (num v ∷ args) ops (stale sp ∷ sp') lw'} (num v)
                  args (rw e) refl done))),
      )

  pub doop-prefix :
      (u : Unary) (args : List Arg) (ops : List OpCell) (sp : List (Option Op)) (lw : Bool)
      → ob + length ops < 32
      → doop (unary u) 128 (mk ab ob errs args ops sp lw)
        ≡ ok (mk ab ob errs args (unary_cell u ∷ ops) (unspare sp) true)
  unfolding doop push_op
  doop-prefix u args [] sp lw h = rw (lt→leb 32 (ob + 0) h)
  doop-prefix u args (c ∷ cs) sp lw h = rw (lt→leb 32 (ob + length (c ∷ cs)) h)

  number-Correct : (n p : ℕ) → p ≤ 128 → Correct p (number n)
  unfolding tokens value args_needed ops_needed leaves_last
  number-Correct n p k us args base sp lw v e rd first fa fo red w =
      let (sp', run) =
        stackarg-waiting ab ob errs us n args base sp (omega arith)
          (top_unary-not-reducible p base k red) in
      let q : n ≡ v = cc in
      (
        mk ab ob errs (num (apply_all us v) ∷ args) base sp' false,
        read_operand (rw (← q) (run lw)) done,
        refl,
        here sp' refl,
      )

  prefix-Correct : (u : Unary) (x : Exp) (p : ℕ) → p ≤ 128 → Correct 128 x → Correct p (prefix u x)
  unfolding tokens value args_needed ops_needed leaves_last is_readable begins_prefix
  prefix-Correct u x p k hx us args base sp lw v e rd first fa fo red w =
      let (y, ey, eq) = bind-eq-ok (value x) _ e in
      let (m, run, last, s) =
        hx (u ∷ us) args base (unspare sp) true y ey rd (λ b. refl) fa (omega arith)
          (not-reducible-strengthen p 128 base k red) (inr refl) in
      let q : unary_value u y ≡ v = cc in
      (
        m,
        read_prefix (first refl)
            (doop-prefix u args (waiting us base) sp lw (omega (arith, length-waiting us base)))
            run,
        last,
        rw (← q) (Settles-weaken ab ob errs p 128 k s),
      )

  -- Written with no brackets, where nothing waits for the value.
  bare-Correct :
      (b : Binary) (l r : Exp) (p : ℕ)
      → leb p (priority b) ≡ true
      → Correct (priority b) l
      → Correct (priority b + 1) r
      → Correct p (apply b l r)
  unfolding args_needed begins_prefix is_readable
  bare-Correct b l r p bare hl hr [] args base sp lw v e rd first fa fo red w =
      let (m, run, last, s) =
        body-Correct b l r args base sp lw v hl hr e rd first fa
          (omega (arith, ops_needed_bare b l r p bare))
          (not-reducible-strengthen p (priority b) base (leb→le p (priority b) bare) red) in
      (
        m,
        rw (tokens_bare b l r p bare) run,
        last,
        rw (leaves_last_bare b l r p false bare)
            (Settles-weaken ab ob errs p (priority b) (leb→le p (priority b) bare) s),
      )
  bare-Correct b l r p bare hl hr (u ∷ us) args base sp lw v e rd first fa fo red (inl w) = cc
  bare-Correct b l r p bare hl hr (u ∷ us) args base sp lw v e rd first fa fo red (inr w) =
      absurd (omega (arith, leb→le p (priority b) bare, priority_bounds b))

  bracketed-Correct :
      (b : Binary) (l r : Exp) (p : ℕ)
      → p ≤ 128
      → leb p (priority b) ≡ false
      → Correct (priority b) l
      → Correct (priority b + 1) r
      → Correct p (apply b l r)
  unfolding args_needed begins_prefix is_readable
  bracketed-Correct b l r p k bracketed hl hr us args base sp lw v e rd first fa fo red w =
      let n = length-waiting us base in
      let need = ops_needed_bracketed b l r p bracketed in
      let marker : OpCell = record { op = stale sp; pri = 0 } in
      let (m, run, last, s) =
        body-Correct b l r args (marker ∷ waiting us base) (unspare sp) lw v hl hr e rd first fa
          (omega arith) refl in
      let (sp', closed) =
        bracket_tokens (priority b) (body_tokens b l r) args (waiting us base) sp lw v (omega arith)
          run s in
      (
        mk ab ob errs (num v ∷ args) (waiting us base) sp' false,
        rw (tokens_bracketed b l r p bracketed) closed,
        refl,
        rw (leaves_last_bracketed b l r p (pending us) bracketed)
            (waiting-Settles p us v args base sp' (omega arith) k red w),
      )

  -- From any state with room on both stacks.
  pub run_tokens-Correct : (e : Exp) (p : ℕ) → p ≤ 128 → Correct p e
  run_tokens-Correct (number n) p k = number-Correct n p k
  run_tokens-Correct (prefix u x) p k =
      prefix-Correct u x p k (run_tokens-Correct x 128 (omega arith))
  run_tokens-Correct (apply b l r) p k =
      let hl = run_tokens-Correct l (priority b) (omega (arith, priority_bounds b)) in
      let hr = run_tokens-Correct r (priority b + 1) (omega (arith, priority_bounds b)) in
      elim (Bool-cases (leb p (priority b))) [
        | inl bare ↦ bare-Correct b l r p bare hl hr
        | inr bracketed ↦ bracketed-Correct b l r p k bracketed hl hr
      ]
