-- ===== src/Symbols/Names.antt =====
-- Local names of different scopes do not meet in the table.
use dasm.Base.{
  ℕ, ◌≡◌, refl, sym, ◌∙◌, true, ◌||◌, [], ◌∷◌, ◌++◌, ◌==◌, if◌then◌else◌, Bytes, peek, arith,
  Bool-cases, inl, inr,
}
use dasm.Base.Decimal.{decimal, decimal-injective, EndsDigits}
use dasm.State.{Globals}
use dasm.Symbols.{qualified, last_byte, dot, dollar}

abbrev pub IsLocal : Bytes → Type 0
IsLocal str = (peek str == dot || last_byte str == dollar) ≡ true

-- The index that belongs to a local name.
pub scope : Globals → Bytes → ℕ
scope g str = if peek str == dot then g.localindex else g.localdollarindex

-- What stands behind the index.
local_part : Bytes → Bytes
local_part str = if peek str == dot then str else dollar ∷ str

qualified-local_part :
    (g : Globals) (str : Bytes)
    → IsLocal str
    → qualified g str ≡ decimal (scope g str) ++ local_part str
unfolding qualified scope local_part
qualified-local_part g str h = elim (Bool-cases (peek str == dot)) [
  | inl d ↦ rw d
  | inr n ↦ rw (n, (rw n at h))
]

local_part-EndsDigits : (str : Bytes) → EndsDigits (local_part str)
unfolding local_part
local_part-EndsDigits [] = refl
local_part-EndsDigits (c ∷ s) = elim (Bool-cases (c == dot)) [
  | inl d ↦ rw d (ground arith)
  | inr n ↦ rw n
]

local_part-injective : (s t : Bytes) → local_part s ≡ local_part t → s ≡ t
unfolding local_part
local_part-injective [] [] e = refl
local_part-injective [] (d ∷ t) e = ground arith
local_part-injective (c ∷ s) [] e = ground arith
local_part-injective (c ∷ s) (d ∷ t) e = ground arith

-- Two local names that the table holds under one name are the same name in the same scope.
pub qualified-injective :
    (g h : Globals) (s t : Bytes)
    → IsLocal s
    → IsLocal t
    → qualified g s ≡ qualified h t
    → (s ≡ t) × (scope g s ≡ scope h t)
qualified-injective g h s t ls lt e =
    let e' = sym (qualified-local_part g s ls) ∙ e ∙ qualified-local_part h t lt in
    let (same_scope, same_part) =
      decimal-injective (scope g s) (scope h t) (local_part s) (local_part t)
        (local_part-EndsDigits s) (local_part-EndsDigits t) e' in
    (local_part-injective s t same_part, same_scope)
