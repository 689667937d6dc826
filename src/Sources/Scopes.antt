-- ===== src/Sources/Scopes.antt =====
-- The scopes of the macros of src/ops.c: Mlevel, Localindex and Localdollarindex.
use dasm.Base.{ℕ, ◌+◌, ◌≤◌, ◌<◌, ◌≡◌, List, [], ◌∷◌, Bytes, arith, length, to_nat}
use dasm.Sources.{IncFile, Reading, max_mac_level}
use dasm.State.{Globals}
use dasm.Symbols.{programlabel}
use dasm.Symbols.Scopes.{programlabel-Labelled}

-- How many of the files that are being read are macros.
unfoldable pub macros : List IncFile → ℕ
macros [] = 0
macros (i ∷ is) = to_nat i.is_macro + macros is

-- No macro that is being read has saved a scope later than the numbers `last` and `last_dollar`.
pub data Saved (last last_dollar : ℕ) : List IncFile → Type 0 where
  no_file : Saved last last_dollar []
  file :
      {i : IncFile} {is : List IncFile}
      → i.saveidx ≤ last
      → i.savedolidx ≤ last_dollar
      → Saved last last_dollar is
      → Saved last last_dollar (i ∷ is)

-- Mlevel counts the macros, and is at most MAXMACLEVEL; no scope has a number beyond the last ones;
-- below the macros there is a file.
pub record Scoped (incfiles : List IncFile) (mlevel : ℕ) (g : Globals) : Type 0 where
  pub level : mlevel ≡ macros incfiles
  pub bounded : mlevel ≤ max_mac_level
  pub local_scope : g.localindex ≤ g.lastlocalindex
  pub dollar_scope : g.localdollarindex ≤ g.lastlocaldollarindex
  pub on_file : macros incfiles < length incfiles
  pub saved : Saved g.lastlocalindex g.lastlocaldollarindex incfiles

abbrev pub IsScoped : Reading → Type 0
IsScoped r = Scoped r.incfiles r.mlevel r.globals

pub Saved-later : {a b c d : ℕ} {is : List IncFile} → a ≤ c → b ≤ d → Saved a b is → Saved c d is
Saved-later h k no_file = no_file
Saved-later h k (file x y s) = file (omega arith) (omega arith) (Saved-later h k s)

pub programlabel-Saved :
    (label : Bytes) (g : Globals) {is : List IncFile}
    → Saved g.lastlocalindex g.lastlocaldollarindex is
    → Saved (programlabel label g).lastlocalindex (programlabel label g).lastlocaldollarindex is
programlabel-Saved label g s =
    let l = programlabel-Labelled label g in
    Saved-later (omega (arith, l.last_kept)) l.dollar_ahead s

-- A label in front of something that leaves the files alone.
pub labelled-IsScoped :
    (label : Bytes) (r : Reading)
    → IsScoped r
    → IsScoped (record r { globals = programlabel label r.globals })
labelled-IsScoped label r s =
    let l = programlabel-Labelled label r.globals in
    record {
      level = s.level;
      bounded = s.bounded;
      local_scope = rw (l.local_kept, l.last_kept) s.local_scope;
      dollar_scope = l.dollar_bound s.dollar_scope;
      on_file = s.on_file;
      saved = programlabel-Saved label r.globals s.saved;
    }
