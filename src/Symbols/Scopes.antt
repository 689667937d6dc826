-- ===== src/Symbols/Scopes.antt =====
-- What programlabel of src/symbols.c does to the numbers of the local scopes.
use dasm.Base.{
  ℕ, ◌+◌, ◌≤◌, ◌≡◌, refl, ◌∙◌, Bool, true, false, [], ◌∷◌, Bytes, arith, ◌==◌, if◌then◌else◌,
  Bool-cases, Option-cases, inl, inr,
}
use dasm.State.{Symbol, Globals}
use dasm.Symbols.{
  Ref, org_ref, special_ref, specchk_ref, entry, findsymbol, createsymbol, modify, give_order,
  check_label, place_label, programlabel, drop_colon,
}

-- Nothing has changed of the scopes.
pub record SameScopes (g h : Globals) : Type 0 where
  pub local_same : h.localindex ≡ g.localindex
  pub last_same : h.lastlocalindex ≡ g.lastlocalindex
  pub dollar_same : h.localdollarindex ≡ g.localdollarindex
  pub last_dollar_same : h.lastlocaldollarindex ≡ g.lastlocaldollarindex

same : (g : Globals) → SameScopes g g
same g = record { local_same = refl; last_same = refl; dollar_same = refl; last_dollar_same = refl }

then_same : {g h k : Globals} → SameScopes g h → SameScopes h k → SameScopes g k
then_same a b = record {
  local_same = b.local_same ∙ a.local_same;
  last_same = b.last_same ∙ a.last_same;
  dollar_same = b.dollar_same ∙ a.dollar_same;
  last_dollar_same = b.last_dollar_same ∙ a.last_dollar_same;
}

modify-SameScopes : (g : Globals) (r : Ref) (f : Symbol → Symbol) → SameScopes g (modify g r f)
unfolding modify
modify-SameScopes g org_ref f = record {
  local_same = refl;
  last_same = refl;
  dollar_same = refl;
  last_dollar_same = refl;
}
modify-SameScopes g special_ref f = record {
  local_same = refl;
  last_same = refl;
  dollar_same = refl;
  last_dollar_same = refl;
}
modify-SameScopes g specchk_ref f = record {
  local_same = refl;
  last_same = refl;
  dollar_same = refl;
  last_dollar_same = refl;
}
modify-SameScopes g (entry n) f = record {
  local_same = refl;
  last_same = refl;
  dollar_same = refl;
  last_dollar_same = refl;
}

give_order-SameScopes : (g : Globals) (r : Ref) (s : Symbol) → SameScopes g (give_order r s g)
unfolding give_order
give_order-SameScopes g r s = elim (Bool-cases (s.order == 0)) [
  | inl e ↦ rw e (
      then_same
        (record {
          local_same = refl;
          last_same = refl;
          dollar_same = refl;
          last_dollar_same = refl;
        })
        (modify-SameScopes (record g { symbol_count = g.symbol_count + 1 }) r
          (λ t. record t { order = g.symbol_count + 1 })))
  | inr e ↦ rw e (same g)
]

check_label-SameScopes :
    (pc cflags : ℕ) (s : Symbol) (g : Globals) → SameScopes g (check_label pc cflags s g)
unfolding check_label
check_label-SameScopes pc cflags s g = ground arith

createsymbol-SameScopes : (g : Globals) (str : Bytes) → SameScopes g (createsymbol g str true).0
unfolding createsymbol
createsymbol-SameScopes g str = record {
  local_same = refl;
  last_same = refl;
  dollar_same = refl;
  last_dollar_same = refl;
}

place_label-SameScopes : (str : Bytes) (g : Globals) → SameScopes g (place_label str g)
unfolding place_label
place_label-SameScopes str g = elim (Option-cases (findsymbol g str)) [
  | inl missing ↦
      rw (missing, place_label)
        (then_same (createsymbol-SameScopes g str)
          (modify-SameScopes (createsymbol g str true).0 (createsymbol g str true).1 _))
  | inr (p, found) ↦
      rw (found, place_label)
        (then_same (give_order-SameScopes g p.0 p.1) (
          then_same (check_label-SameScopes _ _ p.1 (give_order p.0 p.1 g))
            (modify-SameScopes _ p.0 _)))
]

-- What a label may do to the scopes: a label that is not local opens a new scope of names with a
-- dollar sign.
pub record Labelled (g h : Globals) : Type 0 where
  pub local_kept : h.localindex ≡ g.localindex
  pub last_kept : h.lastlocalindex ≡ g.lastlocalindex
  pub dollar_ahead : g.lastlocaldollarindex ≤ h.lastlocaldollarindex
  pub dollar_bound :
      g.localdollarindex ≤ g.lastlocaldollarindex → h.localdollarindex ≤ h.lastlocaldollarindex

by_same : {g h k : Globals} → Labelled g h → SameScopes h k → Labelled g k
by_same l s = record {
  local_kept = s.local_same ∙ l.local_kept;
  last_kept = s.last_same ∙ l.last_kept;
  dollar_ahead = rw s.last_dollar_same l.dollar_ahead;
  dollar_bound = λ h. rw (s.last_dollar_same, s.dollar_same) (l.dollar_bound h);
}

unlabelled : (g : Globals) → Labelled g g
unlabelled g = record {
  local_kept = refl;
  last_kept = refl;
  dollar_ahead = omega arith;
  dollar_bound = λ h. h;
}

new_dollar_scope :
    (b : Bool) (g : Globals)
    → Labelled g (
        if b
        then record g {
          lastlocaldollarindex = g.lastlocaldollarindex + 1;
          localdollarindex = g.lastlocaldollarindex + 1;
        }
        else g)
new_dollar_scope true g = record {
  local_kept = refl;
  last_kept = refl;
  dollar_ahead = omega arith;
  dollar_bound = λ h. omega arith;
}
new_dollar_scope false g = unlabelled g

pub programlabel-Labelled : (label : Bytes) (g : Globals) → Labelled g (programlabel label g)
unfolding programlabel
programlabel-Labelled [] g = unlabelled g
programlabel-Labelled (c ∷ cs) g =
    by_same (new_dollar_scope _ g) (place_label-SameScopes (drop_colon (c ∷ cs)) _)
