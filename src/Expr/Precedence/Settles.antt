-- ===== src/Expr/Precedence/Settles.antt =====
-- A state that the loops over evaltop bring to an argument `v` on top of `args`.
use dasm.Base.{
  ℕ, zero, suc, ◌+◌, ◌≤◌, ◌<◌, ◌≡◌, refl, ◌∙◌, Bool, true, false, Option, List, [], ◌∷◌, arith,
  length,
}
use dasm.Errors.{AsmError}
use dasm.Expr.Machine.{Binary, Op, Arg, OpCell, Machine}
use dasm.Expr.Precedence.Calls.{num, binary_cell, mk, evaltop-binary}
use dasm.Expr.Precedence.{binary_value, sets_last}
use dasm.Expr.Stack.{evaltop, reduce, reducible, top_unary, flush, no_ops}
use dasm.Run.{Run, ok}

abbrev pub with_last : Machine → Bool → Machine
with_last m lw = record m { lastwasop = lw }

pub reducible-weaken :
    (q p : ℕ) (ops : List OpCell) → q ≤ p → reducible p ops ≡ true → reducible q ops ≡ true
reducible-weaken q p [] h r = r
reducible-weaken q p (c ∷ cs) h r = ground arith

pub not-reducible-strengthen :
    (q p : ℕ) (ops : List OpCell) → q ≤ p → reducible q ops ≡ false → reducible p ops ≡ false
not-reducible-strengthen q p [] h r = r
not-reducible-strengthen q p (c ∷ cs) h r = ground arith

pub top_unary-not-reducible :
    (p : ℕ) (ops : List OpCell) → p ≤ 128 → reducible p ops ≡ false → top_unary ops ≡ false
top_unary-not-reducible p [] h r = refl
top_unary-not-reducible p (c ∷ cs) h r = ground arith

pub reduce_idle : (n p : ℕ) (m : Machine) → reducible p m.ops ≡ false → reduce n p m ≡ ok m
unfolding reduce
reduce_idle zero p m h = refl
reduce_idle (suc n) p m h = rw (h, reduce)

reduce_step :
    (n p : ℕ) (m m1 : Machine)
    → reducible p m.ops ≡ true
    → evaltop m ≡ ok m1
    → reduce (suc n) p m ≡ reduce n p m1
unfolding reduce
reduce_step n p m m1 h e = rw (h, e, reduce)

reducible-nonempty :
    (p : ℕ) (ops : List OpCell) → reducible p ops ≡ true → (no_ops ops ≡ false) × (0 < length ops)
reducible-nonempty p [] h = cc
reducible-nonempty p (c ∷ cs) h = (refl, omega arith)

flush_step :
    (n : ℕ) (m m1 : Machine)
    → no_ops m.ops ≡ false
    → evaltop m ≡ ok m1
    → flush (suc n) m ≡ flush n m1
unfolding flush
flush_step n m m1 h e = rw (h, e, flush)

module _ (ab ob : ℕ) (errs : List AsmError) where
  -- All the operators above `base` bind at least as tightly as `p`, and evaltop works them off; at
  -- the end Lastwasop is `k`.
  pub data Settles (p : ℕ) (base : List OpCell) (args : List Arg) (v : ℕ) (k : Bool)
      : Machine → Type 0 where
    here :
        {m : Machine} (sp : List (Option Op))
        → m ≡ mk ab ob errs (num v ∷ args) base sp k
        → Settles p base args v k m
    next :
        {m m1 : Machine}
        → reducible p m.ops ≡ true
        → length m1.ops < length m.ops
        → ((lw : Bool) → evaltop (with_last m lw) ≡ ok m1)
        → Settles p base args v k m1
        → Settles p base args v k m

  abbrev pub Settled : List OpCell → List Arg → ℕ → Bool → Run Machine → Type 0
  Settled base args v k r =
      (sp : List (Option Op)) × (r ≡ ok (mk ab ob errs (num v ∷ args) base sp k))

  -- The same from another value of Lastwasop, which is left where there is nothing to work off.
  pub Settles-with_last :
      {p : ℕ} {base : List OpCell} {args : List Arg} {v : ℕ} {k : Bool} {m : Machine} (lw : Bool)
      → Settles p base args v k m
      → (k' : Bool) × Settles p base args v k' (with_last m lw)
  Settles-with_last lw (here sp e) = (lw, here sp (rw e refl))
  Settles-with_last {k} lw (next r l e s) = (k, next r l e s)

  pub Settles-weaken :
      (q p : ℕ) {base : List OpCell} {args : List Arg} {v : ℕ} {k : Bool} {m : Machine}
      → q ≤ p
      → Settles p base args v k m
      → Settles q base args v k m
  Settles-weaken q p h (here sp e) = here sp e
  Settles-weaken q p h (next {m} r l e s) =
      next (reducible-weaken q p m.ops h r) l e (Settles-weaken q p h s)

  pub reduce-Settles :
      (p : ℕ) {base : List OpCell} {args : List Arg} {v : ℕ} {k : Bool} {m : Machine} (n : ℕ)
      → length m.ops ≤ n
      → reducible p base ≡ false
      → Settles p base args v k m
      → Settled base args v k (reduce n p m)
  reduce-Settles p {base} {args} {v} {k} n h b (here sp e) =
      (sp, rw e (reduce_idle n p (mk ab ob errs (num v ∷ args) base sp k) b))
  reduce-Settles p {m} zero h b (next r l e s) = absurd (omega arith)
  reduce-Settles p {m} (suc n) h b (next {m1} r l e s) =
      let (sp, done) = reduce-Settles p n (omega arith) b s in
      (sp, reduce_step n p m m1 r (e m.lastwasop) ∙ done)

  pub flush-Settles :
      (p : ℕ) {args : List Arg} {v : ℕ} {k : Bool} {m : Machine} (n : ℕ)
      → length m.ops ≤ n
      → Settles p [] args v k m
      → Settled [] args v k (flush n m)
  flush-Settles p zero h (here sp e) = (sp, rw e (unfold flush in refl))
  flush-Settles p (suc n) h (here sp e) = (sp, rw e (unfold flush in refl))
  flush-Settles p {m} zero h (next r l e s) = absurd (omega arith)
  flush-Settles p {m} (suc n) h (next {m1} r l e s) =
      let (sp, done) = flush-Settles p n (omega arith) s in
      (sp, flush_step n m m1 (reducible-nonempty p m.ops r).0 (e m.lastwasop) ∙ done)

  -- A binary operator below a settled right operand is worked off next.
  pub Settles-binary :
      {args : List Arg} {base : List OpCell} (b : Binary) (p q v w x : ℕ) {k : Bool} {m : Machine}
      → ab + length args < 64
      → top_unary base ≡ false
      → 0 < p
      → p < 128
      → p ≤ q
      → binary_value b v w ≡ ok x
      → Settles q (binary_cell b p ∷ base) (num v ∷ args) w k m
      → Settles p base args x (sets_last b) m
  Settles-binary {args} {base} b p q v w x h t pos lt le e (here sp eq) =
      let (sp', run) = evaltop-binary ab ob errs b p v w x args base sp h t lt e in
      rw eq (
        next {m1 = mk ab ob errs (num x ∷ args) base sp' (sets_last b)} (ground arith) (omega arith)
          run (here sp' refl))
  Settles-binary b p q v w x h t pos lt le e (next {m} r l ev s) =
      next (reducible-weaken p q m.ops le r) l ev (Settles-binary b p q v w x h t pos lt le e s)
