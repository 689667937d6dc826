-- ===== src/Symbols.antt =====
-- src/symbols.c: the symbol table, its hash chains and the labels.
pub mod Table
pub mod Names
pub mod Labels
pub mod Scopes
use dasm.Base.{
  ℕ, zero, suc, ◌+◌, ◌*◌, ◌%◌, ◌^◌, Bool, true, false, not, ◌&&◌, Option, none, some, List, [], ◌∷◌,
  ◌++◌, ◌==◌, if◌then◌else◌, Bytes, codes, peek, take, length, same_bytes,
}
use dasm.Base.Decimal.{decimal}
use dasm.Errors.{label_mismatch}
use dasm.State.{
  Segment, Symbol, Globals, has, with_bit, without_bit, again, report, pc_of, pc_flags, sym_unknown,
  sym_ref, obscure, forward_reference, phase_error, sf_rorg,
}

-- hash1: Fletcher's checksum with two bytes, cut down to 12 bits.
hash_loop : ℕ → ℕ → Bytes → ℕ
hash_loop a b [] = (a * 256 + b) % 4096
hash_loop a b (c ∷ s) = let a' = (a + c) % 256 in hash_loop a' ((b + a') % 256) s

unfoldable pub hash1 : Bytes → ℕ
unfolding hash_loop
hash1 str = hash_loop 0 0 str

-- str[len - 1]
unfoldable pub last_byte : Bytes → ℕ
last_byte [] = 0
last_byte (c ∷ []) = c
last_byte (c ∷ d ∷ s) = last_byte (d ∷ s)

abbrev pub max_sym_len : ℕ
max_sym_len = 1024

abbrev pub dot : ℕ
dot = b'.'

abbrev pub dollar : ℕ
dollar = b'$'

-- The name under which the table holds `str`: names that begin with a dot are local to a
-- subroutine, those that end with a dollar to the text between two plain labels.
unfoldable pub qualified : Globals → Bytes → Bytes
unfolding last_byte
qualified g str =
    if peek str == dot
    then decimal g.localindex ++ str
    else if last_byte str == dollar
    then decimal g.localdollarindex ++ dollar ∷ str
    else str

-- The first symbol of a chain with this name.
unfoldable pub chain_find : Bytes → List Symbol → Option Symbol
chain_find name [] = none
chain_find name (s ∷ chain) = if same_bytes s.name name then some s else chain_find name chain

-- What a write through the pointer to that symbol does to the chain.
unfoldable pub chain_modify : Bytes → (Symbol → Symbol) → List Symbol → List Symbol
chain_modify name f [] = []
chain_modify name f (s ∷ chain) =
    if same_bytes s.name name then f s ∷ chain else s ∷ chain_modify name f chain

unfoldable pub set_bucket : (ℕ → List Symbol) → ℕ → List Symbol → ℕ → List Symbol
set_bucket t h chain i = if i == h then chain else t i

-- What findsymbol points to.
pub data Ref : Type 0 where
  org_ref special_ref specchk_ref : Ref
  entry : Bytes → Ref

-- The static symbols org and specchk as findsymbol sets them when it returns them.
abbrev pub fresh_org : Globals → Symbol
fresh_org g =
    let s = g.org in record s { flags = pc_flags g.csegment % 2; value = pc_of g.csegment }

abbrev pub fresh_specchk : Globals → Symbol
fresh_specchk g = let s = g.specchk in record s { flags = 0; value = g.checksum }

unfoldable pub find_entry : Globals → Bytes → Option (Ref × Symbol)
unfolding chain_find hash1
find_entry g name = elim (chain_find name (g.shash (hash1 name))) [
  | none ↦ none
  | some s ↦ some (entry name, s)
]

-- findsymbol, for the first `length str` bytes at str.
unfoldable pub findsymbol : Globals → Bytes → Option (Ref × Symbol)
unfolding find_entry qualified
findsymbol g long_name =
    let str = take max_sym_len long_name in
    if same_bytes str (codes ".")
    then some (org_ref, fresh_org g)
    else if same_bytes str (codes "..")
    then some (special_ref, g.special)
    else if same_bytes str (codes "...")
    then some (specchk_ref, fresh_specchk g)
    else find_entry g (qualified g str)

unfoldable pub modify_entry : Globals → Bytes → (Symbol → Symbol) → Globals
unfolding chain_modify set_bucket hash1
modify_entry g name f =
    let h = hash1 name in
    record g { shash = set_bucket g.shash h (chain_modify name f (g.shash h)) }

-- A write through the pointer that findsymbol returned just before.
unfoldable pub modify : Globals → Ref → (Symbol → Symbol) → Globals
unfolding modify_entry
modify g org_ref f = record g { org = f (fresh_org g) }
modify g specchk_ref f = record g { specchk = f (fresh_specchk g) }
modify g special_ref f = record g { special = f g.special }
modify g (entry name) f = modify_entry g name f

-- setspecial
unfoldable pub setspecial : ℕ → ℕ → Globals → Globals
setspecial value flags g =
    let s = g.special in record g { special = record s { value = value; flags = flags } }

-- CreateSymbol: the new symbol, in front of its chain, and the pointer to it.
unfoldable pub createsymbol : Globals → Bytes → Bool → Globals × Ref × Symbol
unfolding qualified hash1 set_bucket
createsymbol g long_name add_to_order =
    let name = qualified g (take max_sym_len long_name) in
    let h = hash1 name in
    let count = if add_to_order then g.symbol_count + 1 else g.symbol_count in
    let s : Symbol = record {
      name = name;
      string = none;
      flags = sym_unknown;
      addrmode = 0;
      value = 0;
      order = if add_to_order then count else 0;
    } in
    (record g { shash = set_bucket g.shash h (s ∷ g.shash h); symbol_count = count }, entry name, s)

-- The label of a line without its colon.
unfoldable pub drop_colon : Bytes → Bytes
drop_colon [] = []
drop_colon (c ∷ []) = if c == b':' then [] else c ∷ []
drop_colon (c ∷ d ∷ s) = c ∷ drop_colon (d ∷ s)

-- The reasons for another pass that programlabel finds at a label that exists.
unfoldable pub check_label : ℕ → ℕ → Symbol → Globals → Globals
check_label pc cflags sym g =
    if has sym.flags sym_unknown && has sym.flags sym_ref
    then again forward_reference g
    else if has cflags sym_unknown && has sym.flags sym_ref
    then again forward_reference g
    else if not (has cflags sym_unknown) && not (has sym.flags sym_unknown) && not (pc == sym.value)
    then again phase_error (if has g.redo_if 2 then g else report label_mismatch g)
    else g

-- sym->value = pc; sym->flags = (sym->flags & ~SYM_UNKNOWN) | (cflags & SYM_UNKNOWN);
abbrev pub define_label : ℕ → ℕ → Symbol → Symbol
define_label pc cflags s = record s {
  value = pc;
  flags = without_bit s.flags sym_unknown + cflags % 2;
}

-- `if (!sym->order) sym->order = ++SymbolCount;`
unfoldable pub give_order : Ref → Symbol → Globals → Globals
unfolding modify
give_order r s g =
    if s.order == 0
    then modify (record g { symbol_count = g.symbol_count + 1 }) r
        (λ t. record t { order = g.symbol_count + 1 })
    else g

-- The part of programlabel behind the local scopes, at the label `str`.
unfoldable pub place_label : Bytes → Globals → Globals
place_label str g =
    let pc = pc_of g.csegment in
    let cflags = pc_flags g.csegment in
    elim (findsymbol g str) [
      | some (r, s) ↦ modify (check_label pc cflags s (give_order r s g)) r (define_label pc cflags)
      | none ↦ let (g', r, s) = createsymbol g str true in modify g' r (define_label pc cflags)
    ]

-- programlabel, at the label field Av[0] of the line. (Plab and Pflags serve the listing alone.)
unfoldable pub programlabel : Bytes → Globals → Globals
unfolding drop_colon last_byte
programlabel [] g = g
programlabel (c ∷ cs) g =
    let str = drop_colon (c ∷ cs) in
    place_label str (
      if not (c == dot) && not (last_byte str == dollar)
      then record g {
        lastlocaldollarindex = g.lastlocaldollarindex + 1;
        localdollarindex = g.lastlocaldollarindex + 1;
      }
      else g)
