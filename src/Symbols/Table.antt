-- ===== src/Symbols/Table.antt =====
-- The hash chains implement a map from names to symbols.
use dasm.Base.{
  ℕ, ◌≡◌, refl, Bool, true, Option, some, List, [], ◌∷◌, if◌then◌else◌, Bytes, arith, same_bytes,
  same_bytes_iff,
}
use mathlib.Core.Option
use dasm.State.{Globals, Symbol}
use dasm.Symbols.{hash1, chain_find, chain_modify, set_bucket, modify_entry, createsymbol}

-- The map that the table stands for.
unfoldable pub view : Globals → Bytes → Option Symbol
view g name = chain_find name (g.shash (hash1 name))

pub same_bytes_refl : (a : Bytes) → same_bytes a a ≡ true
same_bytes_refl a = (same_bytes_iff a a).1 refl

chain_find-name : (k : Bytes) (c : List Symbol) (s : Symbol) → chain_find k c ≡ some s → s.name ≡ k
unfolding chain_find
chain_find-name k [] s h = cc
chain_find-name k (x ∷ c) s h = ground (arith, chain_find-name k c s, same_bytes_iff x.name k)

chain_find-cons :
    (t : ℕ → List Symbol) (s : Symbol) (k : Bytes)
    → chain_find k (set_bucket t (hash1 s.name) (s ∷ t (hash1 s.name)) (hash1 k))
      ≡ (if same_bytes s.name k then some s else chain_find k (t (hash1 k)))
unfolding set_bucket chain_find
chain_find-cons t s k = ground (arith, same_bytes_iff s.name k)

-- The new symbol hides every other of its name, and no other name changes.
pub view-createsymbol :
    (g : Globals) (name k : Bytes) (add_to_order : Bool)
    → view (createsymbol g name add_to_order).0 k ≡ (
        if same_bytes (createsymbol g name add_to_order).2.name k
        then some (createsymbol g name add_to_order).2
        else view g k)
unfolding view createsymbol
view-createsymbol g name k b = chain_find-cons g.shash (createsymbol g name b).2 k

chain_find-chain_modify :
    (n k : Bytes) (f : Symbol → Symbol) (c : List Symbol)
    → ((s : Symbol) → (f s).name ≡ s.name)
    → chain_find k (chain_modify n f c)
      ≡ (if same_bytes n k then Option.map f (chain_find n c) else chain_find k c)
unfolding chain_find chain_modify
chain_find-chain_modify n k f [] keep = ground arith
chain_find-chain_modify n k f (x ∷ c) keep = ground (
  arith,
  keep x,
  chain_find-chain_modify n k f c keep,
  same_bytes_iff n k,
  same_bytes_iff x.name k,
  same_bytes_iff x.name n,
  same_bytes_iff (f x).name k,
)

-- A write that keeps the name, through the pointer to a symbol, changes what is found under its
-- name, and nothing else.
pub view-modify_entry :
    (g : Globals) (n k : Bytes) (f : Symbol → Symbol)
    → ((s : Symbol) → (f s).name ≡ s.name)
    → view (modify_entry g n f) k ≡ (if same_bytes n k then Option.map f (view g n) else view g k)
unfolding view modify_entry set_bucket
view-modify_entry g n k f keep =
    ground (arith, same_bytes_iff n k, chain_find-chain_modify n k f (g.shash (hash1 n)) keep)
