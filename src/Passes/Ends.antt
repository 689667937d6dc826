-- ===== src/Passes/Ends.antt =====
-- The loop over the passes of src/main.c ends, and what its end means.
use dasm.Base.{
  ℕ, zero, suc, ◌+◌, ◌<◌, ◌≡◌, refl, sym, ap, ◌∙◌, false, not, ◌&&◌, Option, none, some, arith, ltb,
  ◌==◌, ==_iff, if-cases, ◌⊎◌, inl, inr,
}
use dasm.Errors.{AsmError}
use dasm.Passes.{
  Assembly, Limits, Ending, completed, non_abort, Verdict, follow, again, finished, end_pass,
  final_ending, next_pass, start_pass, passes, assemble, globals_of, stop_at_end, same_counts,
  counts_of,
}
use dasm.Run.{Run, ok, exit, panicked, undefined, ◌>>=◌, bind-eq-ok}

-- The lines of a pass leave its number alone.
abbrev pub KeepsPass : (Assembly → Run Assembly) → Type 0
KeepsPass lines = (a b : Assembly) → lines a ≡ ok b → b.pass ≡ a.pass

-- An assembly that comes to an end: with an ending, or inside a pass, in an error that exits, in
-- panic or in a step that C does not define.
pub data Ends : Run (Option Ending) → Type 0 where
  ended : (e : Ending) → Ends (ok (some e))
  exited : (e : AsmError) → Ends (exit e)
  in_panic : Ends panicked
  not_defined : Ends undefined

Verdict-cases : (v : Verdict) → ((e : Ending) × (v ≡ finished e)) ⊎ ((a : Assembly) × (v ≡ again a))
Verdict-cases (finished e) = inl (e, refl)
Verdict-cases (again a) = inr (a, refl)

abbrev pass_of : Verdict → ℕ
pass_of (finished e) = 0
pass_of (again a) = a.pass

-- After a pass that is followed by another one the number is one greater, and no greater than the
-- limit.
again-pass :
    (lim : Limits) (a a' : Assembly)
    → end_pass lim a ≡ again a'
    → (a'.pass ≡ a.pass + 1) × (a.pass < lim.max_passes)
unfolding end_pass next_pass
again-pass lim a a' =
    let P : Verdict → Type 0 =
      λ v. v ≡ again a' → (a'.pass ≡ a.pass + 1) × (a.pass < lim.max_passes) in
    if-cases P a.mlflag (λ b h. cc)
      (λ b.
        if-cases P ((globals_of a).redo == 0) (λ c h. cc)
          (λ c.
            if-cases P (not lim.all_passes && same_counts (counts_of (globals_of a)) a.old)
              (λ d h. cc)
              (λ d.
                if-cases P (ltb lim.max_passes (a.pass + 1)) (λ e h. cc)
                  (λ e h. (sym (ap pass_of h), ground arith)))))

-- What the later passes do is given for the assembly that this one hands on.
pass-Ends :
    (n : ℕ) (lines : Assembly → Run Assembly) (lim : Limits) (p : ℕ) (m : Run Assembly)
    → ((b : Assembly) → m ≡ ok b → b.pass ≡ p)
    → ((a : Assembly) → a.pass ≡ p + 1 → p < lim.max_passes → Ends (passes lines lim n a))
    → Ends (m >>= λ b. follow (passes lines lim n) (end_pass lim b))
pass-Ends n lines lim p (ok b) k next = elim (Verdict-cases (end_pass lim b)) [
  | inl (e, v) ↦ rw v (ended e)
  | inr (a, v) ↦
      let (up, low) = again-pass lim b a v in
      let kept = k b refl in rw v (next a (omega (arith, up, kept)) (omega (arith, low, kept)))
]
pass-Ends n lines lim p (exit e) k next = exited e
pass-Ends n lines lim p panicked k next = in_panic
pass-Ends n lines lim p undefined k next = not_defined

passes-Ends :
    (n : ℕ) (lines : Assembly → Run Assembly) (lim : Limits) (a : Assembly)
    → KeepsPass lines
    → 0 < n
    → a.pass + n ≡ lim.max_passes + 1
    → Ends (passes lines lim n a)
unfolding passes start_pass
passes-Ends zero lines lim a k h e = absurd (omega arith)
passes-Ends (suc n) lines lim a k h e =
    pass-Ends n lines lim a.pass (lines (start_pass a)) (λ b r. k (start_pass a) b r)
      (λ a' up low. passes-Ends n lines lim a' k (omega arith) (omega arith))

-- Whatever the lines do in a pass, as long as they leave its number alone, nMaxPasses passes are
-- enough: the assembly ends, with one of its endings or inside a pass.
pub assemble-Ends :
    (lines : Assembly → Run Assembly) (lim : Limits) (a : Assembly)
    → KeepsPass lines
    → 0 < lim.max_passes
    → Ends (assemble lines lim a)
unfolding assemble
assemble-Ends lines lim a k h = passes-Ends lim.max_passes lines lim _ k h (omega arith)

-- A pass after which nothing is left to do.
pub record IsSettled (a : Assembly) : Type 0 where
  pub no_redo : (globals_of a).redo ≡ 0
  pub no_comment : a.mlflag ≡ false
  pub no_error : stop_at_end (globals_of a).errors ≡ false
  pub balanced : a.declarations ≡ a.closings

IsSettled-final_ending :
    (a : Assembly)
    → (globals_of a).redo ≡ 0
    → a.mlflag ≡ false
    → final_ending a ≡ completed
    → IsSettled a
unfolding final_ending
IsSettled-final_ending a z m =
    let P : Ending → Type 0 = λ e. e ≡ completed → IsSettled a in
    if-cases P (not (a.declarations == a.closings)) (λ d h. cc)
      (λ d.
        if-cases P (stop_at_end (globals_of a).errors) (λ e h. cc)
          (λ e h. record { no_redo = z; no_comment = m; no_error = e; balanced = ground arith }))

abbrev ending_of : Verdict → Ending
ending_of (finished e) = e
ending_of (again a) = non_abort

end_pass-IsSettled :
    (lim : Limits) (a : Assembly) → end_pass lim a ≡ finished completed → IsSettled a
unfolding end_pass
end_pass-IsSettled lim a =
    let P : Verdict → Type 0 = λ v. v ≡ finished completed → IsSettled a in
    if-cases P a.mlflag (λ b h. cc)
      (λ b.
        if-cases P ((globals_of a).redo == 0)
          (λ c h. IsSettled-final_ending a ((==_iff (globals_of a).redo 0).0 c) b (ap ending_of h))
          (λ c.
            if-cases P (not lim.all_passes && same_counts (counts_of (globals_of a)) a.old)
              (λ d h. cc)
              (λ d. if-cases P (ltb lim.max_passes (a.pass + 1)) (λ e h. cc) (λ e h. cc))))

abbrev result_of : Run (Option Ending) → Ending
result_of (ok (some e)) = e
result_of (ok none) = non_abort
result_of (exit e) = non_abort
result_of panicked = non_abort
result_of undefined = non_abort

-- The passes of an assembly: each one runs the lines, and either end_pass hands on an assembly for the
-- next one, or it gives the ending behind `c`, the last one.
pub data Passed (lines : Assembly → Run Assembly) (lim : Limits) (e : Ending) (c : Assembly)
    : Assembly → Type 0 where
  last :
      {a : Assembly}
      → lines (start_pass a) ≡ ok c
      → end_pass lim c ≡ finished e
      → Passed lines lim e c a
  followed :
      {a b a' : Assembly}
      → lines (start_pass a) ≡ ok b
      → end_pass lim b ≡ again a'
      → Passed lines lim e c a'
      → Passed lines lim e c a

passes-IsSettled :
    (n : ℕ) (lines : Assembly → Run Assembly) (lim : Limits) (a : Assembly)
    → passes lines lim n a ≡ ok (some completed)
    → (c : Assembly) × Passed lines lim completed c a × IsSettled c
unfolding passes
passes-IsSettled zero lines lim a h = cc
passes-IsSettled (suc n) lines lim a h =
    let (c, ran, rest) =
      bind-eq-ok (lines (start_pass a)) (λ b. follow (passes lines lim n) (end_pass lim b)) h in
    elim (Verdict-cases (end_pass lim c)) [
      | inl (e, v) ↦
          let same = sym (ap (follow (passes lines lim n)) v) ∙ rest in
          let end : end_pass lim c ≡ finished completed =
            v ∙ ap (λ r. finished (result_of r)) same in
          (c, last ran end, end_pass-IsSettled lim c end)
      | inr (a', v) ↦
          let (d, passed, settled) =
            passes-IsSettled n lines lim a' (sym (ap (follow (passes lines lim n)) v) ∙ rest) in
          (d, followed ran v passed, settled)
    ]

-- An assembly that completes has run its passes from pass 1 up to a last one, behind which end_pass
-- completes it, and what that last pass leaves has nothing that asks for another one, no fatal
-- error, no open comment, and as many ends of macros as macros.
pub assemble-IsSettled :
    (lines : Assembly → Run Assembly) (lim : Limits) (a : Assembly)
    → assemble lines lim a ≡ ok (some completed)
    → (c : Assembly) × Passed lines lim completed c (record a { pass = 1; old = none })
      × IsSettled c
unfolding assemble
assemble-IsSettled lines lim a h = passes-IsSettled lim.max_passes lines lim _ h
