-- ===== src/Expr/Precedence/Operand.antt =====
-- Lastwasop, by which eval tells a prefix operator from an infix one, behind doop.
use dasm.Base.{
  ℕ, suc, ◌+◌, ◌≤◌, ◌<◌, ◌≡◌, refl, Bool, true, Option, List, [], ◌∷◌, arith, ne→==, le→leb, lt→leb,
}
use dasm.Errors.{AsmError}
use dasm.Expr.Machine.{unspare, Binary, Op, binary, Machine}
use dasm.Expr.Precedence.{priority, binary_value, sets_last}
use dasm.Expr.Precedence.Shapes.{priority_bounds}
use dasm.Expr.Precedence.Calls.{num, binary_cell, mk, evaltop-binary}
use dasm.Expr.Stack.{doop, reduce, reducible, evaltop, push_op}
use dasm.Run.{ok}

reduce_step :
    (n p : ℕ) (m m' : Machine)
    → reducible p m.ops ≡ true
    → evaltop m ≡ ok m'
    → reduce (suc n) p m ≡ reduce n p m'
unfolding reduce
reduce_step n p m m' h e = rw (h, e, reduce)

module _ (ab ob : ℕ) (errs : List AsmError) where
  reduce_last :
      (p : ℕ) (b : Binary) (v w x : ℕ) (sp : List (Option Op)) (lw : Bool)
      → ab < 64
      → p ≤ priority b
      → binary_value b v w ≡ ok x
      → (sp' : List (Option Op)) × (reduce 1 p
            (mk ab ob errs (num w ∷ num v ∷ []) (binary_cell b (priority b) ∷ []) sp lw)
          ≡ ok (mk ab ob errs (num x ∷ []) [] sp' (sets_last b)))
  unfolding reduce
  reduce_last p b v w x sp lw h q e =
      let (sp', run) =
        evaltop-binary ab ob errs b (priority b) v w x [] [] sp (omega arith) refl
          (omega (arith, priority_bounds b)) e in
      let top : reducible p (binary_cell b (priority b) ∷ []) ≡ true =
        rw (ne→== (priority b) 0 (omega (arith, priority_bounds b)), le→leb p (priority b) q)
          refl in
      (
        sp',
        reduce_step 0 p (mk ab ob errs (num w ∷ num v ∷ []) (binary_cell b (priority b) ∷ []) sp lw)
            _ top (run lw),
      )

  -- Behind the operands `v` and `w` of a waiting operator `b`, with room on the stacks and a value
  -- for `v b w`, doop at an operator of no higher priority replaces the operands by the value and
  -- `b` by the operator, and leaves Lastwasop set only if `b` is `*`, `%`, `+` or `-`.
  pub doop-sets_last :
      (o b : Binary) (v w x : ℕ) (sp : List (Option Op)) (lw : Bool)
      → ab < 64
      → ob < 32
      → priority o ≤ priority b
      → binary_value b v w ≡ ok x
      → (sp' : List (Option Op)) × (doop
            (binary o)
            (priority o)
            (mk ab ob errs (num w ∷ num v ∷ []) (binary_cell b (priority b) ∷ []) sp lw)
          ≡ ok (mk ab ob errs (num x ∷ []) (binary_cell o (priority o) ∷ []) sp' (sets_last b)))
  unfolding doop push_op
  doop-sets_last o b v w x sp lw h k q e =
      let (sp', run) = reduce_last (priority o) b v w x sp true h q e in
      (
        unspare sp',
        rw (
          ne→== (priority o) 128 (omega (arith, priority_bounds o)),
          run,
          lt→leb 32 (ob + 0) (omega arith),
        ),
      )
