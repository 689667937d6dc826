-- ===== src/Tests/Converters.antt =====
-- Runs of ftobin.
use dasm.Base.{◌≡◌, refl, [], ◌∷◌}
use dasm.Binary.{convert_binary}

-- Two records with a gap of one byte.
ascending_test :
    convert_binary 2 [] (0 ∷ 16 ∷ 2 ∷ 0 ∷ 1 ∷ 2 ∷ 3 ∷ 16 ∷ 1 ∷ 0 ∷ 9 ∷ []) ≡ 1 ∷ 2 ∷ 255 ∷ 9 ∷ []
unfolding convert_binary
ascending_test = refl

-- A record of three bytes, one that goes back to the first byte, and one behind a gap of two: the
-- gap is written behind the second record, over the first.
going_back_test :
    convert_binary 2 [] (0 ∷ 16 ∷ 3 ∷ 0 ∷ 1 ∷ 2 ∷ 3 ∷ 0 ∷ 16 ∷ 1 ∷ 0 ∷ 7 ∷ 5 ∷ 16 ∷ 1 ∷ 0 ∷ 9 ∷ [])
    ≡ 7 ∷ 255 ∷ 255 ∷ 0 ∷ 0 ∷ 9 ∷ []
unfolding convert_binary
going_back_test = refl
