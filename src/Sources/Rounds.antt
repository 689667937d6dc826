-- ===== src/Sources/Rounds.antt =====
-- The loops of REPEAT and REPEND of src/ops.c, from REPEAT on.
use dasm.Base.{ℕ, zero, suc, ◌-◌, ◌<◌, ◌≡◌, refl, true, false, List, ◌∷◌, Bytes, arith, ◌==◌, ne→==}
use dasm.Conditional.{assembles}
use dasm.Run.{Run, ok, ◌>>=◌}
use dasm.Sources.{IncFile, Reading, v_repend, push_loop}
use dasm.State.{Symbol}
use dasm.Word.{word_size, is_negative}
use dasm.Sources.Loops.{Frame, AtEnd, AtStart, Ended, IsLoop, repend-AtStart, repend-Ended}

-- The lines of a round and REPEND, so many times.
unfoldable pub rounds : ℕ → (Reading → Run Reading) → Bytes → Reading → Run Reading
rounds zero body label r = ok r
rounds (suc n) body label r = body r >>= λ q. v_repend label q >>= rounds n body label

-- Lines that can be run in each round, and that leave loops, IF stack and file alone.
abbrev pub RunsIn : Frame → (Reading → Run Reading) → Type 0
RunsIn f body =
    (left : ℕ) (r : Reading)
    → AtStart f left r
    → (r' : Reading) × (body r ≡ ok r') × AtEnd f left r'

rounds-AtStart :
    (k left : ℕ) (body : Reading → Run Reading) (label : Bytes) (f : Frame) (r : Reading)
    → IsLoop f
    → RunsIn f body
    → k < left
    → left < word_size
    → AtStart f left r
    → (r' : Reading) × (rounds k body label r ≡ ok r') × AtStart f (left - k) r'
unfolding rounds
rounds-AtStart zero left body label f r l b h w s =
    (let same : left - zero ≡ left = omega arith in (r, refl, rw same s))
rounds-AtStart (suc k) left body label f r l b h w s =
    let (q, ran, e) = b left r s in
    let (q', again, s') = repend-AtStart label f left q l (omega arith) w e in
    let (r', rest, t) =
      rounds-AtStart k (left - 1) body label f q' l b (omega arith) (omega arith) s' in
    let less : left - suc k ≡ left - 1 - k = omega arith in (r', rw (ran, again) rest, rw less t)

rounds-Ended :
    (n : ℕ) (body : Reading → Run Reading) (label : Bytes) (f : Frame) (r : Reading)
    → IsLoop f
    → RunsIn f body
    → suc n < word_size
    → AtStart f (suc n) r
    → (r' : Reading) × (rounds (suc n) body label r ≡ ok r') × Ended f r'
unfolding rounds
rounds-Ended zero body label f r l b w s =
    let (q, ran, e) = b 1 r s in
    let (r', ended, t) = repend-Ended label f q l e in (r', rw (ran, ended) refl, t)
rounds-Ended (suc n) body label f r l b w s =
    let (q, ran, e) = b (suc (suc n)) r s in
    let (q', again, s') = repend-AtStart label f (suc (suc n)) q l (omega arith) w e in
    let less : suc n ≡ suc (suc n) - 1 = omega arith in
    let (r', rest, t) = rounds-Ended n body label f q' l b (omega arith) (rw less s') in
    (r', rw (ran, again) rest, t)

rounds-Ended_at :
    (n m : ℕ) (body : Reading → Run Reading) (label : Bytes) (f : Frame) (r : Reading)
    → n ≡ suc m
    → IsLoop f
    → RunsIn f body
    → n < word_size
    → AtStart f n r
    → (r' : Reading) × (rounds n body label r ≡ ok r') × Ended f r'
rounds-Ended_at n m body label f r e l b w s =
    rw e (rounds-Ended m body label f r l b (omega (arith, e)) (rw⁻¹ e s))

-- The frame of the loop that REPEAT opens at a symbol, in the file `inc` with `next` below it.
abbrev pub frame_of : IncFile → List IncFile → Symbol → Reading → Frame
frame_of inc next s r = record {
  inc = inc;
  next = next;
  loop = record {
    file = inc.file;
    seek = inc.text;
    lineno = inc.lineno;
    count = s.value;
    flags = s.flags;
  };
  loops = r.reploops;
  ifs = r.ifs;
}

push_loop-AtStart :
    (inc : IncFile) (next : List IncFile) (s : Symbol) (r : Reading)
    → r.incfiles ≡ inc ∷ next
    → (s.value == 0) ≡ false
    → is_negative s.value ≡ false
    → AtStart (frame_of inc next s r) s.value (push_loop inc s r)
unfolding push_loop
push_loop-AtStart inc next s r e z n =
    rw (z, n)
      (record {
        at = record {
          place = inc;
          files = e;
          same_file = refl;
          same_loops = refl;
          same_ifs = refl;
        };
        text = refl;
      })

-- REPEAT at a resolved positive count runs the lines up to REPEND just so many times: each round starts
-- at the text behind REPEAT with the loop in place, and after the last one the loops and the IF stack
-- are as they were before REPEAT. The lines are ones that leave loops, IF stack and file as they are.
pub repeat-rounds :
    (body : Reading → Run Reading) (label : Bytes) (inc : IncFile) (next : List IncFile)
    (s : Symbol) (r : Reading)
    → r.incfiles ≡ inc ∷ next
    → assembles r.ifs.top ≡ true
    → s.flags ≡ 0
    → 0 < s.value
    → s.value < word_size
    → is_negative s.value ≡ false
    → RunsIn (frame_of inc next s r) body
    → ((r' : Reading) × (rounds s.value body label (push_loop inc s r) ≡ ok r')
        × Ended (frame_of inc next s r) r')
      × ((k : ℕ)
          → k < s.value
          → (q : Reading) × (rounds k body label (push_loop inc s r) ≡ ok q)
            × AtStart (frame_of inc next s r) (s.value - k) q)
repeat-rounds body label inc next s r e a z p w n b =
    let f = frame_of inc next s r in
    let l : IsLoop f = record { resolved = z; loop_file = refl; seek = refl; assembled = a } in
    let start = push_loop-AtStart inc next s r e (ne→== s.value 0 (omega arith)) n in
    let count : s.value ≡ suc (s.value - 1) = omega arith in
    (
      rounds-Ended_at s.value (s.value - 1) body label f (push_loop inc s r) count l b w start,
      λ k h. rounds-AtStart k s.value body label f (push_loop inc s r) l b h w start,
    )
