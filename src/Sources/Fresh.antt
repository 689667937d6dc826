-- ===== src/Sources/Fresh.antt =====
-- The scope of a macro of src/ops.c is a new one.
use dasm.Base.{ℕ, ◌≤◌, ◌<◌, ◌≡◌, ap, List, Bytes, arith, ◌==◌, if-cases}
use mathlib.Core.List.{Memᴰ}
use mathlib.Core.List.Memᴰ.{head, tail}
use dasm.Run.{Run, ok, exit, panicked, undefined}
use dasm.Sources.{IncFile, Reading, v_execmac, max_mac_level}
use dasm.Symbols.Scopes.{programlabel-Labelled}
use dasm.Sources.Scopes.{Saved, no_file, file, IsScoped}

-- A local scope other than that of the macro which was entered last.
pub data Outer (r : Reading) : ℕ → Type 0 where
  current : Outer r r.globals.localindex
  suspended : (inc : IncFile) → Memᴰ inc r.incfiles → Outer r inc.saveidx

Saved-Mem :
    {a b : ℕ} {is : List IncFile} {inc : IncFile} → Saved a b is → Memᴰ inc is → inc.saveidx ≤ a
Saved-Mem no_file m = elim m [ ]
Saved-Mem (file x y s) (head e) = rw e x
Saved-Mem (file x y s) (tail m) = Saved-Mem s m

Outer-bound : {r : Reading} {n : ℕ} → IsScoped r → Outer r n → n ≤ r.globals.lastlocalindex
Outer-bound s current = s.local_scope
Outer-bound s (suspended inc m) = Saved-Mem s.saved m

abbrev scope_of : Run Reading → ℕ
scope_of (ok r) = r.globals.localindex
scope_of (exit e) = 0
scope_of panicked = 0
scope_of undefined = 0

-- The scope of a macro that is called is none of those that wait for it to end, so that its local
-- names are other ones than theirs.
pub execmac-fresh :
    (name : Bytes) (strlist : List Bytes) (label str : Bytes) (r r' : Reading) (n : ℕ)
    → IsScoped r
    → Outer r n
    → v_execmac name strlist label str r ≡ ok r'
    → n < r'.globals.localindex
unfolding v_execmac
execmac-fresh name strlist label str r r' n s o =
    if-cases (λ m. m ≡ ok r' → n < r'.globals.localindex) (r.mlevel == max_mac_level) (λ f h. cc)
      (λ f h.
        let bound = Outer-bound s o in
        let l = programlabel-Labelled label r.globals in omega (arith, ap scope_of h, l.last_kept))
