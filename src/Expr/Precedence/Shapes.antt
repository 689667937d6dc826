-- ===== src/Expr/Precedence/Shapes.antt =====
-- The tokens of a tree by its shape, and doop behind a settled operand.
use Prim.Native.Nat.{max}
use dasm.Base.{
  ℕ, ◌+◌, ◌≤◌, ◌<◌, ◌≡◌, refl, ap, ◌∙◌, Bool, true, false, not, Option, some, List, [], ◌∷◌, ◌++◌,
  arith, leb, ◌==◌, length, lt→leb, ne→==,
}
use dasm.Errors.{AsmError}
use dasm.Expr.Machine.{Unary, Binary, Op, binary, Arg, OpCell, Machine, unspare, ops_full, mult}
use dasm.Expr.Precedence.Calls.{num, binary_cell, mk}
use dasm.Expr.Precedence.Settles.{Settles, with_last, reduce-Settles}
use dasm.Expr.Precedence.{
  is_readable, begins_prefix, leaves_last, sets_last, Exp, apply, Token, infix_op, lbracket,
  rbracket, tokens, ops_needed, priority,
}
use dasm.Expr.Stack.{reduce, reducible, doop, push_op}
use dasm.Run.{Run, ok}

pub priority_bounds : (b : Binary) → (10 ≤ priority b) × (priority b ≤ 20)
unfolding priority
priority_bounds mult = omega arith
priority_bounds _ = omega arith

ok-injective : {a b : Machine} → ◌≡◌ {A = Run Machine} (ok a) (ok b) → a ≡ b
ok-injective e = cc

doop_cases :
    (o : Op) (p : ℕ) (ops : List OpCell) (m m1 : Machine)
    → (p == 128) ≡ false
    → reduce (length ops) p (record m { lastwasop = true; ops = ops }) ≡ ok m1
    → ops_full m1 ≡ false
    → doop o p (record m { ops = ops }) ≡ ok (push_op (some o) p m1)
unfolding doop reduce
doop_cases o p [] m m1 ne e f =
    let q : record m { lastwasop = true; ops = [] } ≡ m1 = ok-injective e in
    rw (ap ops_full q ∙ f) (ap (λ (z : Machine). ok (push_op (some o) p z)) q)
doop_cases o p (c ∷ cs) m m1 ne e f = rw (ne, e, f)

abbrev pub body_tokens : Binary → Exp → Exp → List Token
body_tokens b l r = tokens (priority b) l ++ infix_op b ∷ tokens (priority b + 1) r

module _ (b : Binary) (l r : Exp) (p : ℕ) where
  pub tokens_bare : leb p (priority b) ≡ true → tokens p (apply b l r) ≡ body_tokens b l r
  unfolding tokens
  tokens_bare h = rw h

  pub tokens_bracketed :
      leb p (priority b) ≡ false
      → tokens p (apply b l r) ≡ lbracket ∷ (body_tokens b l r ++ rbracket ∷ [])
  unfolding tokens
  tokens_bracketed h = rw h

  pub ops_needed_bare :
      leb p (priority b) ≡ true
      → ops_needed p (apply b l r)
        ≡ max (ops_needed (priority b) l) (1 + ops_needed (priority b + 1) r)
  unfolding ops_needed
  ops_needed_bare h = rw h

  pub ops_needed_bracketed :
      leb p (priority b) ≡ false
      → ops_needed p (apply b l r)
        ≡ 1 + max (ops_needed (priority b) l) (1 + ops_needed (priority b + 1) r)
  unfolding ops_needed
  ops_needed_bracketed h = rw h

  pub leaves_last_bare :
      (waits : Bool) → leb p (priority b) ≡ true → leaves_last waits p (apply b l r) ≡ sets_last b
  unfolding leaves_last
  leaves_last_bare waits h = rw h

  pub leaves_last_bracketed :
      (waits : Bool) → leb p (priority b) ≡ false → leaves_last waits p (apply b l r) ≡ not waits
  unfolding leaves_last
  leaves_last_bracketed waits h = rw h

  pub is_readable_parts :
      is_readable p (apply b l r) ≡ true
      → (is_readable (priority b) l ≡ true)
        × (is_readable (priority b + 1) r ≡ true)
        × (begins_prefix r ≡ true → leaves_last false (priority b) l ≡ true)
  unfolding is_readable
  is_readable_parts h = (ground arith, ground arith, λ k. ground arith)

-- Prefix operators wait.
abbrev pub pending : List Unary → Bool
pending [] = false
pending (u ∷ us) = true

module _ (ab ob : ℕ) (errs : List AsmError) where
  pub doop-Settles :
      (b : Binary) (p : ℕ) (m : Machine) {base : List OpCell} {args : List Arg} {v : ℕ} {k : Bool}
      → p < 128
      → reducible p base ≡ false
      → ob + length base < 32
      → Settles ab ob errs p base args v k (with_last m true)
      → (sp : List (Option Op)) × (doop (binary b) p m
          ≡ ok (mk ab ob errs (num v ∷ args) (binary_cell b p ∷ base) sp k))
  doop-Settles b p m {base} {args} {v} {k} lt r room s =
      let (sp, e) = reduce-Settles ab ob errs p (length m.ops) (omega arith) r s in
      (
        unspare sp,
        doop_cases (binary b) p m.ops m (mk ab ob errs (num v ∷ args) base sp k)
              (ne→== p 128 (omega arith)) e (lt→leb 32 (ob + length base) room)
            ∙ unfold push_op in refl,
      )
