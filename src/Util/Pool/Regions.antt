-- ===== src/Util/Pool/Regions.antt =====
-- The regions that small_alloc of src/util.c has handed out.
use dasm.Base.{
  ℕ, ◌+◌, ◌-◌, ◌%◌, ◌≤◌, ◌<◌, ◌≡◌, refl, arith, Bool, true, false, Option, none, some, List, [],
  ◌∷◌, ltb, ltb→lt, ◌==◌, Bool-cases, if-cases, ◌⊎◌, inl, inr,
}
use mathlib.Core.Path.{subst}
use dasm.Run.{Run, ok, panicked, ◌>>=◌}
use dasm.Util.Pool.{
  Place, Pool, size_limit, alloc_size, block_room, round_up, new_block, take_at, take_bytes,
  small_alloc,
}

-- The place `at` and the number of bytes there.
pub record Region : Type 0 where
  pub at : Place
  pub size : ℕ

-- The cursor stands in a block of malloc's, behind its first 8 bytes, and what is left is the rest of
-- the block; before the first block nothing is left.
pub record InBlock (p : Pool) (at : Place) : Type 0 where
  pub known : at.block < p.fresh
  pub rest : at.offset + p.left ≡ alloc_size
  pub aligned : at.offset % 8 ≡ 0
  pub behind : 8 ≤ at.offset

abbrev pub CursorOk : Pool → Option Place → Type 0
CursorOk p none = p.left ≡ 0
CursorOk p (some at) = InBlock p at

abbrev pub IsPool : Pool → Type 0
IsPool p = CursorOk p p.buf

-- The region stands in an older block than the cursor, or in front of the cursor.
abbrev pub EndsBefore : Region → Option Place → Type 0
EndsBefore r none = Unit {0}
EndsBefore r (some at) = r.at.block ≡ at.block → r.at.offset + r.size ≤ at.offset

pub record IsBefore (p : Pool) (r : Region) : Type 0 where
  pub known : r.at.block < p.fresh
  pub ends : EndsBefore r p.buf

-- The second region does not touch the first one.
abbrev pub Follows : Region → Region → Type 0
Follows r s = r.at.block ≡ s.at.block → r.at.offset + r.size ≤ s.at.offset

-- An allocation fails, or hands out an aligned region inside of a block, which no earlier region
-- touches.
pub data Allocated (p : Pool) (bytes : ℕ) : Run (Place × Pool) → Type 0 where
  fails : Allocated p bytes panicked
  gives :
      (at : Place) (q : Pool)
      → IsPool q
      → at.offset % 8 ≡ 0
      → at.offset + bytes ≤ alloc_size
      → IsBefore q (record { at = at; size = bytes })
      → ((r : Region) → IsBefore p r → IsBefore q r × Follows r (record { at = at; size = bytes }))
      → Allocated p bytes (ok (at, q))

-- What rounding up gives: a multiple of 8 that is large enough, or 0 where it wraps around.
round_up_lem : (bytes : ℕ) → bytes < size_limit → (round_up bytes ≡ 0) ⊎ (bytes ≤ round_up bytes)
round_up_lem bytes h = elim (Bool-cases (ltb (bytes + 7) size_limit)) [
  | inl k ↦ inr (omega (arith, ltb→lt (bytes + 7) size_limit k))
  | inr k ↦ inl (ground (arith, h, k))
]

bytes_fit : {bytes n : ℕ} → (n ≡ 0) ⊎ (bytes ≤ n) → (n == 0) ≡ false → bytes ≤ n
bytes_fit {n = n} (inl h) z = absurd (ground (arith, h, z))
bytes_fit (inr h) z = h

take_at-Allocated :
    (p : Pool) (bytes n : ℕ) (o : Option Place)
    → p.buf ≡ o
    → CursorOk p o
    → (n ≡ 0) ⊎ (bytes ≤ n)
    → n % 8 ≡ 0
    → n ≤ p.left
    → Allocated p bytes (take_at o n p)
unfolding take_at
take_at-Allocated p bytes n none b c m a l = fails
take_at-Allocated p bytes n (some at) b c m a l =
    if-cases (Allocated p bytes) (n == 0) (λ z. fails)
      (λ z.
        gives at
          (record p {
            buf = some (record { block = at.block; offset = at.offset + n });
            left = p.left - n;
          })
          (record {
            known = c.known;
            rest = omega (arith, c.rest, l);
            aligned = omega (arith, c.aligned, a);
            behind = omega (arith, c.behind);
          })
          c.aligned (omega (arith, c.rest, l, bytes_fit m z))
          (record { known = c.known; ends = λ e. omega (arith, bytes_fit m z) })
          (λ r h.
            let before = subst (λ o. EndsBefore r o) b h.ends in
            (record { known = h.known; ends = λ e. omega (arith, before e) }, before)))

-- What is known of a pool holds for an older one.
older-Allocated :
    {p q : Pool} {bytes : ℕ} {m : Run (Place × Pool)}
    → ((r : Region) → IsBefore p r → IsBefore q r)
    → Allocated q bytes m
    → Allocated p bytes m
older-Allocated f fails = fails
older-Allocated f (gives at q i a e b o) = gives at q i a e b (λ r h. o r (f r h))

new_block-Allocated :
    (available : Bool) (p : Pool) (bytes n : ℕ)
    → (n ≡ 0) ⊎ (bytes ≤ n)
    → n % 8 ≡ 0
    → n ≤ block_room
    → Allocated p bytes (new_block available p >>= take_bytes n)
unfolding new_block
new_block-Allocated false p bytes n m a l = fails
new_block-Allocated true p bytes n m a l =
    let fresh : Place = record { block = p.fresh; offset = 8 } in
    let q : Pool = record p {
      stack = p.fresh ∷ p.stack;
      buf = some fresh;
      left = block_room;
      fresh = p.fresh + 1;
    } in
    older-Allocated
      (λ r h. record {
        known = omega (arith, h.known);
        ends = λ e. absurd (omega (arith, h.known, e));
      })
      (take_at-Allocated q bytes n (some fresh) refl
        (record {
          known = omega arith;
          rest = omega arith;
          aligned = omega arith;
          behind = omega arith;
        })
        m a l)

-- small_alloc, at a size that fits size_t: it fails, or hands out an aligned region inside of a
-- block of malloc's, which no region that stood in front of the cursor touches, and the cursor is
-- behind all of them then.
pub small_alloc-Allocated :
    (available : Bool) (bytes : ℕ) (p : Pool)
    → IsPool p
    → bytes < size_limit
    → Allocated p bytes (small_alloc available bytes p)
unfolding small_alloc
small_alloc-Allocated available bytes p h k =
    if-cases (Allocated p bytes) (bytes == 0) (λ z. fails)
      (λ z.
        if-cases (Allocated p bytes) (ltb p.left (round_up bytes))
          (λ more.
            if-cases (Allocated p bytes) (ltb block_room (round_up bytes)) (λ large. fails)
              (λ room.
                new_block-Allocated available p bytes (round_up bytes) (round_up_lem bytes k)
                  (omega arith) (ground (arith, room))))
          (λ enough.
            take_at-Allocated p bytes (round_up bytes) p.buf refl h (round_up_lem bytes k)
              (omega arith) (ground (arith, enough))))

-- A sequence of calls, each with whether malloc would have a block for it: the regions that they hand
-- out.
unfoldable pub allocate : List (Bool × ℕ) → Pool → Run (List Region × Pool)
unfolding small_alloc
allocate [] p = ok ([], p)
allocate ((available, bytes) ∷ calls) p = small_alloc available bytes p >>= λ a.
    allocate calls a.1 >>= λ r. ok (record { at = a.0; size = bytes } ∷ r.0, r.1)

abbrev pub AllFollow : Region → List Region → Type 0
AllFollow r [] = Unit {0}
AllFollow r (s ∷ rs) = Follows r s × AllFollow r rs

-- No region touches a later one.
abbrev pub AreApart : List Region → Type 0
AreApart [] = Unit {0}
AreApart (r ∷ rs) = AllFollow r rs × AreApart rs

abbrev pub AllSizes : List (Bool × ℕ) → Type 0
AllSizes [] = Unit {0}
AllSizes (c ∷ calls) = (c.1 < size_limit) × AllSizes calls

-- The calls fail, or the regions are apart from each other and from those before them.
pub data Handed (p : Pool) : Run (List Region × Pool) → Type 0 where
  failed : Handed p panicked
  handed :
      (rs : List Region) (q : Pool)
      → ((r : Region) → IsBefore p r → AllFollow r rs)
      → AreApart rs
      → Handed p (ok (rs, q))

-- Every sequence of allocations either fails or hands out regions none of which touches another one,
-- also where the size that is rounded up wraps around.
pub allocate-Handed :
    (calls : List (Bool × ℕ)) (p : Pool) → IsPool p → AllSizes calls → Handed p (allocate calls p)
unfolding allocate
allocate-Handed [] p h k = handed [] p (λ r b. tt) tt
allocate-Handed ((available, bytes) ∷ calls) p h k =
    after (λ q i. allocate-Handed calls q i k.1) (small_alloc available bytes p)
      (small_alloc-Allocated available bytes p h k.0)
  where
    cons :
        (at : Place) (q : Pool)
        → IsBefore q (record { at = at; size = bytes })
        → ((r : Region)
            → IsBefore p r
            → IsBefore q r × Follows r (record { at = at; size = bytes }))
        → (m : Run (List Region × Pool)) → Handed q m
        → Handed p (m >>= λ r. ok (record { at = at; size = bytes } ∷ r.0, r.1))
    cons at q b o m failed = failed
    cons at q b o m (handed rs q' f a) =
        handed (record { at = at; size = bytes } ∷ rs) q' (λ r h. let t = o r h in (t.1, f r t.0))
          (f _ b, a)

    after :
        ((q : Pool) → IsPool q → Handed q (allocate calls q))
        → (m : Run (Place × Pool)) → Allocated p bytes m
        → Handed p (
            m >>= λ a.
            allocate calls a.1 >>= λ r. ok (record { at = a.0; size = bytes } ∷ r.0, r.1))
    after again m fails = failed
    after again m (gives at q i a e b o) = cons at q b o (allocate calls q) (again q i)
