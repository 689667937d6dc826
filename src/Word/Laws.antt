-- ===== src/Word/Laws.antt =====
-- The operations on words against the integers that the words stand for.
use dasm.Base.{ℕ, ◌+◌, ◌<◌, ◌≡◌, true, arith, ◌↔◌}
use dasm.Base.Int.{pos_part, neg_part}
use dasm.Word.{word_size, signed, add, sub, negate, less}

pub less_iff :
    (a b : ℕ)
    → a < word_size
    → b < word_size
    → (less a b ≡ true)
      ↔ (pos_part (signed a) + neg_part (signed b) < pos_part (signed b) + neg_part (signed a))
unfolding less
less_iff a b ha hb = ground arith

pub sub-add : (a b : ℕ) → a < word_size → b < word_size → sub (add a b) b ≡ a
unfolding sub add
sub-add a b ha hb = omega arith

pub sub-negate : (a b : ℕ) → a < word_size → b < word_size → sub a b ≡ add a (negate b)
unfolding sub add negate
sub-negate a b ha hb = omega arith
