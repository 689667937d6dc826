-- ===== src/Symbols/Labels.antt =====
-- What programlabel leaves in the table, and when it asks for another pass.
use mathlib.Core.Option
use dasm.Base.{
  ℕ, ◌+◌, ◌%◌, ◌≡◌, ◌↔◌, refl, sym, ap, ◌∙◌, true, false, none, some, ◌==◌, Bytes, arith,
  Bool-cases, Option-cases, inl, inr, ==_iff, same_bytes, take, codes, ◌⊎◌, ◌≢◌,
}
use dasm.State.{Globals, Symbol, pc_of, pc_flags, sym_unknown, without_bit}
use dasm.Symbols.Table.{view, view-createsymbol, view-modify_entry, same_bytes_refl}
use dasm.Symbols.{
  findsymbol, find_entry, qualified, max_sym_len, Ref, org_ref, special_ref, specchk_ref, entry,
  createsymbol, modify, modify_entry, give_order, check_label, define_label, place_label,
}

-- The name is looked up in the table: it is not one of the three special symbols.
pub record InTable (str : Bytes) : Type 0 where
  pub not_org : same_bytes (take max_sym_len str) (codes ".") ≡ false
  pub not_special : same_bytes (take max_sym_len str) (codes "..") ≡ false
  pub not_specchk : same_bytes (take max_sym_len str) (codes "...") ≡ false

abbrev pub key : Globals → Bytes → Bytes
key g str = qualified g (take max_sym_len str)

pub findsymbol-view :
    (g : Globals) (str : Bytes)
    → InTable str
    → findsymbol g str ≡ Option.map (λ s. (entry (key g str), s)) (view g (key g str))
unfolding findsymbol find_entry view
findsymbol-view g str t = rw (t.not_org, t.not_special, t.not_specchk) (ground arith)

-- What one step of programlabel keeps: all that pc and names depend on.
pub record SameScope (g h : Globals) : Type 0 where
  pub segment : h.csegment ≡ g.csegment
  pub local : h.localindex ≡ g.localindex
  pub local_dollar : h.localdollarindex ≡ g.localdollarindex

modify-SameScope : (g : Globals) (r : Ref) (f : Symbol → Symbol) → SameScope g (modify g r f)
unfolding modify
modify-SameScope g org_ref f = record { segment = refl; local = refl; local_dollar = refl }
modify-SameScope g special_ref f = record { segment = refl; local = refl; local_dollar = refl }
modify-SameScope g specchk_ref f = record { segment = refl; local = refl; local_dollar = refl }
modify-SameScope g (entry n) f = record { segment = refl; local = refl; local_dollar = refl }

give_order-SameScope : (g : Globals) (r : Ref) (s : Symbol) → SameScope g (give_order r s g)
unfolding give_order
give_order-SameScope g r s = elim (Bool-cases (s.order == 0)) [
  | inl e ↦ rw e (
      let m =
        modify-SameScope (record g { symbol_count = g.symbol_count + 1 }) r
          (λ t. record t { order = g.symbol_count + 1 }) in
      record { segment = m.segment; local = m.local; local_dollar = m.local_dollar })
  | inr e ↦ rw e (record { segment = refl; local = refl; local_dollar = refl })
]

check_label-SameScope :
    (pc cflags : ℕ) (s : Symbol) (g : Globals) → SameScope g (check_label pc cflags s g)
unfolding check_label
check_label-SameScope pc cflags s g = ground arith

qualified-SameScope :
    (g h : Globals) (str : Bytes) → SameScope g h → qualified h str ≡ qualified g str
unfolding qualified
qualified-SameScope g h str k = rw (k.local, k.local_dollar)

check_label-view :
    (pc cflags : ℕ) (s : Symbol) (g : Globals) (k : Bytes)
    → view (check_label pc cflags s g) k ≡ view g k
unfolding check_label view
check_label-view pc cflags s g k = ground arith

view-symbol_count :
    (g : Globals) (n : ℕ) (k : Bytes) → view (record g { symbol_count = n }) k ≡ view g k
unfolding view
view-symbol_count g n k = refl

give_order-view :
    (g : Globals) (k : Bytes) (s : Symbol)
    → view g k ≡ some s
    → (t : Symbol) × (view (give_order (entry k) s g) k ≡ some t) × (t.flags ≡ s.flags)
unfolding give_order modify
give_order-view g k s h = elim (Bool-cases (s.order == 0)) [
  | inl e ↦ (
    record s { order = g.symbol_count + 1 },
    rw e (
        view-modify_entry (record g { symbol_count = g.symbol_count + 1 }) k k
          (λ t. record t { order = g.symbol_count + 1 }) (λ t. refl)
        ∙ rw (same_bytes_refl, view-symbol_count, h)),
    refl,
  )
  | inr e ↦ (s, rw e h, refl)
]

place_label_found :
    (str : Bytes) (g : Globals) (s : Symbol)
    → InTable str
    → view g (key g str) ≡ some s
    → place_label str g
      ≡ modify_entry
          (check_label
            (pc_of g.csegment)
            (pc_flags g.csegment)
            s
            (give_order (entry (key g str)) s g))
          (key g str)
          (define_label (pc_of g.csegment) (pc_flags g.csegment))
unfolding place_label modify
place_label_found str g s t h = rw (findsymbol-view g str t, h, place_label)

place_label_new :
    (str : Bytes) (g : Globals)
    → InTable str
    → view g (key g str) ≡ none
    → place_label str g
      ≡ modify_entry
          (createsymbol g str true).0
          (key g str)
          (define_label (pc_of g.csegment) (pc_flags g.csegment))
unfolding place_label modify createsymbol
place_label_new str g t h = rw (findsymbol-view g str t, h, place_label)

flags_bit : (f c : ℕ) → (without_bit f sym_unknown + c % 2) % 2 ≡ c % 2
flags_bit f c = ground arith

redo-give_order : (g : Globals) (k : Bytes) (s : Symbol) → (give_order (entry k) s g).redo ≡ g.redo
unfolding give_order modify modify_entry
redo-give_order g k s = ground arith

-- The three shapes of check_label at a symbol whose value is known, at a known program counter.
check_label_known :
    (pc cflags : ℕ) (s : Symbol) (g : Globals)
    → cflags % 2 ≡ 0
    → s.flags % 2 ≡ 0
    → ((pc ≡ s.value) × (check_label pc cflags s g ≡ g))
      ⊎ ((pc ≢ s.value) × ((check_label pc cflags s g).redo ≡ g.redo + 1))
unfolding check_label
check_label_known pc cflags s g c f = elim (Bool-cases (pc == s.value)) [
  | inl e ↦ inl ((==_iff pc s.value).0 e, ground arith)
  | inr e ↦ inr (ground arith, ground arith)
]

place_label-SameScope : (str : Bytes) (g : Globals) → InTable str → SameScope g (place_label str g)
place_label-SameScope str g t = elim (Option-cases (view g (key g str))) [
  | inl new ↦ rw (place_label_new str g t new) (
      unfold modify_entry createsymbol in
      record { segment = refl; local = refl; local_dollar = refl })
  | inr (s, found) ↦
      let k = key g str in
      let a = give_order-SameScope g (entry k) s in
      let b =
        check_label-SameScope (pc_of g.csegment) (pc_flags g.csegment) s
          (give_order (entry k) s g) in
      rw (place_label_found str g s t found) (
        unfold modify_entry in
        record {
          segment = b.segment ∙ a.segment;
          local = b.local ∙ a.local;
          local_dollar = b.local_dollar ∙ a.local_dollar;
        })
]

-- After programlabel the label is in the table at the program counter, known if that is known.
pub record Placed (g h : Globals) (str : Bytes) : Type 0 where
  pub symbol : Symbol
  pub found : view h (key h str) ≡ some symbol
  pub at_pc : symbol.value ≡ pc_of g.csegment
  pub known : symbol.flags % 2 ≡ pc_flags g.csegment % 2

modify_entry-Placed :
    (g h : Globals) (k : Bytes) (s : Symbol)
    → view h k ≡ some s
    → (t : Symbol) × (view
          (modify_entry h k (define_label (pc_of g.csegment) (pc_flags g.csegment)))
          k
        ≡ some t)
      × (t.value ≡ pc_of g.csegment)
      × (t.flags % 2 ≡ pc_flags g.csegment % 2)
modify_entry-Placed g h k s e = (
  define_label (pc_of g.csegment) (pc_flags g.csegment) s,
  view-modify_entry h k k (define_label (pc_of g.csegment) (pc_flags g.csegment)) (λ x. refl)
      ∙ rw (same_bytes_refl, e),
  refl,
  flags_bit s.flags (pc_flags g.csegment),
)

place_label-Placed_at_key :
    (str : Bytes) (g : Globals)
    → InTable str
    → (t : Symbol) × (view (place_label str g) (key g str) ≡ some t)
      × (t.value ≡ pc_of g.csegment)
      × (t.flags % 2 ≡ pc_flags g.csegment % 2)
place_label-Placed_at_key str g t = elim (Option-cases (view g (key g str))) [
  | inl new ↦ rw (place_label_new str g t new) (
      modify_entry-Placed g (createsymbol g str true).0 (key g str) (createsymbol g str true).2
        (view-createsymbol g str (key g str) true ∙ unfold createsymbol in rw same_bytes_refl))
  | inr (s, found) ↦
      let k = key g str in
      let (s', e, _) = give_order-view g k s found in
      rw (place_label_found str g s t found)
        (modify_entry-Placed g _ k s' (check_label-view _ _ s (give_order (entry k) s g) k ∙ e))
]

-- After a label that is not one of the three special symbols is placed, the table holds it with the
-- program counter as its value, and its value is known just when the program counter is.
pub place_label-Placed :
    (str : Bytes) (g : Globals) → InTable str → Placed g (place_label str g) str
place_label-Placed str g t =
    let (s, found, value, flags) = place_label-Placed_at_key str g t in
    record {
      symbol = s;
      found =
          rw
            (qualified-SameScope g (place_label str g) (take max_sym_len str)
              (place_label-SameScope str g t))
            found;
      at_pc = value;
      known = flags;
    }

-- Where the label was known and so is the program counter, a pass without a new reason for
-- another pass has found the label at its old value.
pub place_label-agrees :
    (str : Bytes) (g : Globals) (s : Symbol)
    → InTable str
    → view g (key g str) ≡ some s
    → s.flags % 2 ≡ 0
    → pc_flags g.csegment % 2 ≡ 0
    → (((place_label str g).redo ≡ g.redo) ↔ (pc_of g.csegment ≡ s.value))
place_label-agrees str g s t found sk ck =
    let k = key g str in
    let g1 = give_order (entry k) s g in
    let known = check_label_known (pc_of g.csegment) (pc_flags g.csegment) s g1 ck sk in
    let same = redo-give_order g k s in
    rw (place_label_found str g s t found) (
      unfold modify_entry in
      elim known [
        | inl (e, c) ↦ (λ _. e, λ _. ap (λ (x : Globals). x.redo) c ∙ same)
        | inr (ne, c) ↦ (λ h. absurd (omega arith), λ e. absurd (ne e))
      ])

-- A second pass over a label at the same program counter, if that is known, adds no reason for
-- another pass.
pub place_label-settles :
    (str : Bytes) (g : Globals)
    → InTable str
    → pc_flags g.csegment % 2 ≡ 0
    → (place_label str (place_label str g)).redo ≡ (place_label str g).redo
place_label-settles str g t ck =
    let p = place_label-Placed str g t in
    let h = place_label str g in
    let k = place_label-SameScope str g t in
    (place_label-agrees str h p.symbol t p.found (p.known ∙ ck) (rw k.segment ck)).1
      (rw k.segment (sym p.at_pc))
