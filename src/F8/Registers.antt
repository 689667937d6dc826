-- ===== src/F8/Registers.antt =====
-- The opcodes of LR in src/mnef8.c.
use dasm.Base.{
  ℕ, arith, ◌-◌, ◌<◌, List, [], ◌∷◌, get_or, ◌≡◌, refl, Bool, true, ◌&&◌, Option, none, some,
  ==_iff, ◌==◌, ltb, if◌then◌else◌, all_below, all_below-lt, and_true, ap, sym, ◌∙◌,
}
use dasm.F8.{lr_opcode, reg_none}

-- The destination and the source of the opcodes below 0x20, and of the others.
low_codes : List (ℕ × ℕ)
low_codes =
    (16, 21)
    ∷ (16, 22)
    ∷ (16, 26)
    ∷ (16, 27)
    ∷ (21, 16)
    ∷ (22, 16)
    ∷ (26, 16)
    ∷ (27, 16)
    ∷ (20, 24)
    ∷ (24, 20)
    ∷ (16, 19)
    ∷ (19, 16)
    ∷ (29, 29)
    ∷ (23, 25)
    ∷ (25, 17)
    ∷ (17, 25)
    ∷ (17, 18)
    ∷ (18, 17)
    ∷ []

decode : ℕ → ℕ × ℕ
unfolding low_codes
decode c =
    if ltb c 0x12
    then get_or low_codes c (29, 29)
    else if c == 0x1d
    then (28, 9)
    else if c == 0x1e
    then (9, 28)
    else if ltb c 0x50
    then (16, c - 0x40)
    else (c - 0x50, 16)

abbrev agrees : Option ℕ → ℕ → ℕ → Bool
agrees none d s = true
agrees (some c) d s = (decode c).0 == d && (decode c).1 == s

abbrev decodes : ℕ → ℕ → Bool
decodes d s = agrees (lr_opcode d s) d s

all-decodes : all_below 30 (λ d. all_below 30 (decodes d)) ≡ true
unfolding all_below lr_opcode decode
all-decodes = refl

decodes-decode : (d s c : ℕ) → d < 30 → s < 30 → lr_opcode d s ≡ some c → decode c ≡ (d, s)
decodes-decode d s c hd hs h =
    let all = all_below-lt 30 (decodes d) s (all_below-lt 30 _ d all-decodes hd) hs in
    let (a, b) =
      and_true ((decode c).0 == d) ((decode c).1 == s) (sym (ap (λ o. agrees o d s) h) ∙ all) in
    cc ((==_iff (decode c).0 d).0 a, (==_iff (decode c).1 s).0 b)

-- Two pairs of registers for which LR has one and the same opcode are the same pair, so that the
-- instruction tells both registers.
pub lr_opcode-injective :
    (d s d' s' c : ℕ)
    → d < reg_none
    → s < reg_none
    → d' < reg_none
    → s' < reg_none
    → lr_opcode d s ≡ some c
    → lr_opcode d' s' ≡ some c
    → (d ≡ d') × (s ≡ s')
lr_opcode-injective d s d' s' c hd hs hd' hs' h h' =
    let e =
      sym (decodes-decode d s c (omega arith) (omega arith) h)
      ∙ decodes-decode d' s' c (omega arith) (omega arith) h' in
    (ap (λ x. x.0) e, ap (λ x. x.1) e)
