-- ===== src/Expr/Precedence/Calls.antt =====
-- The calls of evaltop and stackarg on known numbers.
use dasm.Base.{
  ℕ, zero, suc, ◌+◌, ◌≤◌, ◌<◌, ◌≡◌, refl, Bool, true, false, not, ◌&&◌, Option, none, some, List,
  [], ◌∷◌, arith, ◌==◌, length, if◌then◌else◌, Bool-cases, ne→==, lt→leb, inl, inr, to_nat, ◌||◌,
  ◌∙◌,
}
use dasm.Errors.{AsmError}
use dasm.Expr.Machine.{
  Unary, Binary, Op, unary, binary, Arg, OpCell, Machine, takelsb, takemsb, invert, mult, div,
  andand, oror, question,
}
use dasm.Expr.Operators.{Stackarg, op_unary, op_binary}
use dasm.Expr.Precedence.{unary_value, binary_value, sets_last}
use dasm.Expr.Stack.{push_arg, drain, stackarg, evaltop_with, evaltop, top_unary}
use dasm.Run.{ok}

abbrev pub num : ℕ → Arg
num v = record { value = v; flags = 0; string = none }

abbrev pub unary_cell : Unary → OpCell
unary_cell u = record { op = some (unary u); pri = 128 }

abbrev pub binary_cell : Binary → ℕ → OpCell
binary_cell b p = record { op = some (binary b); pri = p }

-- Unary operators that wait, the innermost first.
abbrev pub waiting : List Unary → List OpCell → List OpCell
waiting [] base = base
waiting (u ∷ us) base = unary_cell u ∷ waiting us base

abbrev pub apply_all : List Unary → ℕ → ℕ
apply_all [] v = v
apply_all (u ∷ us) v = apply_all us (unary_value u v)

pub length-waiting :
    (us : List Unary) (base : List OpCell) → length (waiting us base) ≡ length us + length base
length-waiting [] base = omega arith
length-waiting (u ∷ us) base = omega (arith, length-waiting us base)

op_unary_num :
    (st : Stackarg) (u : Unary) (v : ℕ) (m : Machine)
    → op_unary st u v 0 m ≡ st (unary_value u v) 0 m
unfolding op_unary unary_value
op_unary_num st takelsb v m = refl
op_unary_num st takemsb v m = refl
op_unary_num st Unary.negate v m = refl
op_unary_num st invert v m = refl
op_unary_num st Unary.not v m = refl

pub op_andand_num :
    (st : Stackarg) (v w : ℕ) (m : Machine)
    → op_binary st andand v w 0 0 m ≡ st (to_nat (not (v == 0) && not (w == 0))) 0 m
unfolding op_binary
op_andand_num st v w m = elim (Bool-cases (v == 0)) [
  | inl a ↦ rw a
  | inr a ↦ elim (Bool-cases (w == 0)) [ inl b ↦ rw (a, b) | inr b ↦ rw (a, b) ]
]

pub op_oror_num :
    (st : Stackarg) (v w : ℕ) (m : Machine)
    → op_binary st oror v w 0 0 m ≡ st (to_nat (not (v == 0) || not (w == 0))) 0 m
unfolding op_binary
op_oror_num st v w m = elim (Bool-cases (v == 0)) [
  | inr a ↦ rw a
  | inl a ↦ elim (Bool-cases (w == 0)) [ inl b ↦ rw (a, b) | inr b ↦ rw (a, b) ]
]

pub op_question_num :
    (st : Stackarg) (v w : ℕ) (m : Machine)
    → op_binary st question v w 0 0 m ≡ st (if v == 0 then 0 else w) 0 m
unfolding op_binary
op_question_num st v w m = elim (Bool-cases (v == 0)) [ inl a ↦ rw a | inr a ↦ rw a ]

-- An operator with two known operands pushes its value, and sets Lastwasop behind that or leaves it.
op_binary_last :
    (st : Stackarg) (b : Binary) (v w x : ℕ) (m m' : Machine)
    → binary_value b v w ≡ ok x
    → ((lw : Bool) → st x 0 (record m { lastwasop = lw }) ≡ ok (record m' { lastwasop = false }))
    → op_binary st b v w 0 0 m ≡ ok (record m' { lastwasop = sets_last b })
unfolding op_binary binary_value
op_binary_last st mult v w x m m' e h = ground (arith, h m.lastwasop)
op_binary_last st div v w x m m' e h = ground (arith, h true)
op_binary_last st question v w x m m' e h = op_question_num st v w m ∙ cc (e, h m.lastwasop)
op_binary_last st andand v w x m m' e h = op_andand_num st v w m ∙ cc (e, h m.lastwasop)
op_binary_last st oror v w x m m' e h = op_oror_num st v w m ∙ cc (e, h m.lastwasop)
op_binary_last st _ v w x m m' e h = ground (arith, h m.lastwasop)

pub drain_idle : (n : ℕ) (m : Machine) → top_unary m.ops ≡ false → drain n m ≡ ok m
unfolding drain
drain_idle zero m h = refl
drain_idle (suc n) m h = rw (h, drain)

module _ (ab ob : ℕ) (errs : List AsmError) where
  abbrev pub mk : List Arg → List OpCell → List (Option Op) → Bool → Machine
  mk args ops sp lw = record {
    args = args;
    ops = ops;
    spare = sp;
    argibase = ab;
    opibase = ob;
    lastwasop = lw;
    errors = errs;
  }

  push_num :
      (v : ℕ) (args : List Arg) (ops : List OpCell) (sp : List (Option Op)) (lw : Bool)
      → ab + length args < 64
      → push_arg (num v) (mk args ops sp lw) ≡ ok (mk (num v ∷ args) ops sp false)
  unfolding push_arg
  push_num v args ops sp lw h = rw (lt→leb 64 (ab + length args) h)

  drain-unary :
      (n : ℕ) (u : Unary) (v w : ℕ) (args : List Arg) (ops base : List OpCell)
      (sp sp' : List (Option Op))
      → ab + length args < 64
      → top_unary base ≡ false
      → drain n (mk (num (unary_value u v) ∷ args) ops (some (unary u) ∷ sp) false)
        ≡ ok (mk (num w ∷ args) base sp' false)
      → drain (suc n) (mk (num v ∷ args) (unary_cell u ∷ ops) sp false)
        ≡ ok (mk (num w ∷ args) base sp' false)
  unfolding drain evaltop_with
  drain-unary n u v w args ops base sp sp' h t e =
      rw (op_unary_num, push_num (unary_value u v) args ops (some (unary u) ∷ sp) false h, e)
        (drain_idle n _ t)

  -- The loop of stackarg applies the unary operators that wait for the argument.
  pub drain-waiting :
      (n : ℕ) (us : List Unary) (v : ℕ) (args : List Arg) (base : List OpCell)
      (sp : List (Option Op))
      → length us ≤ n
      → ab + length args < 64
      → top_unary base ≡ false
      → (sp' : List (Option Op)) × (drain n (mk (num v ∷ args) (waiting us base) sp false)
          ≡ ok (mk (num (apply_all us v) ∷ args) base sp' false))
  drain-waiting n [] v args base sp k h t = (sp, drain_idle n _ t)
  drain-waiting zero (u ∷ us) v args base sp k h t = absurd (omega arith)
  drain-waiting (suc n) (u ∷ us) v args base sp k h t =
      let w = unary_value u v in
      let (sp', e) = drain-waiting n us w args base (some (unary u) ∷ sp) (omega arith) h t in
      (sp', drain-unary n u v (apply_all us w) args (waiting us base) base sp sp' h t e)

  pub stackarg-waiting :
      (us : List Unary) (v : ℕ) (args : List Arg) (base : List OpCell) (sp : List (Option Op))
      → ab + length args < 64
      → top_unary base ≡ false
      → (sp' : List (Option Op)) × ((lw : Bool)
          → stackarg v 0 (mk args (waiting us base) sp lw)
            ≡ ok (mk (num (apply_all us v) ∷ args) base sp' false))
  unfolding stackarg
  stackarg-waiting us v args base sp h t =
      let (sp', e) =
        drain-waiting (length (waiting us base)) us v args base sp
          (omega (arith, length-waiting us base)) h t in
      (sp', λ lw. rw (push_num v args (waiting us base) sp lw h) e)

  pub evaltop-unary :
      (u : Unary) (us : List Unary) (v : ℕ) (args : List Arg) (base : List OpCell)
      (sp : List (Option Op))
      → ab + length args < 64
      → top_unary base ≡ false
      → (sp' : List (Option Op)) × ((lw : Bool)
          → evaltop (mk (num v ∷ args) (waiting (u ∷ us) base) sp lw)
            ≡ ok (mk (num (apply_all (u ∷ us) v) ∷ args) base sp' false))
  unfolding evaltop evaltop_with
  evaltop-unary u us v args base sp h t =
      let (sp', e) = stackarg-waiting us (unary_value u v) args base (some (unary u) ∷ sp) h t in
      (
        sp',
        λ lw. op_unary_num stackarg u v (mk args (waiting us base) (some (unary u) ∷ sp) lw) ∙ e lw,
      )

  pub evaltop-binary :
      (b : Binary) (p v w x : ℕ) (args : List Arg) (base : List OpCell) (sp : List (Option Op))
      → ab + length args < 64
      → top_unary base ≡ false
      → p < 128
      → binary_value b v w ≡ ok x
      → (sp' : List (Option Op)) × ((lw : Bool)
          → evaltop (mk (num w ∷ num v ∷ args) (binary_cell b p ∷ base) sp lw)
            ≡ ok (mk (num x ∷ args) base sp' (sets_last b)))
  unfolding evaltop evaltop_with
  evaltop-binary b p v w x args base sp h t lt e =
      let (sp', pushed) = stackarg-waiting [] x args base (some (binary b) ∷ sp) h t in
      (
        sp',
        λ lw. rw (ne→== p 128 (omega arith)) (
            op_binary_last stackarg b v w x (mk args base (some (binary b) ∷ sp) lw)
              (mk (num x ∷ args) base sp' false) e pushed),
      )
