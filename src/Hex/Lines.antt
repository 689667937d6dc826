-- ===== src/Hex/Lines.antt =====
-- A record of src/ftohex.c, as a reader of Intel HEX takes it.
use dasm.Base.{
  ℕ, ◌+◌, ◌-◌, ◌*◌, ◌/◌, ◌%◌, ◌<◌, ◌≡◌, refl, ap, ◌∙◌, false, arith, [], ◌∷◌, ◌++◌, Bytes, codes,
  length, leb, ◌==◌, if◌then◌else◌, rest,
}
use dasm.Hex.{hex_char, puth, puth_all, data_line, sum_of, checksum_of}

-- The value of a hex digit in upper case.
abbrev pub digit_value : ℕ → ℕ
digit_value c = if leb c b'9' then c - b'0' else c - b'A' + 10

-- The bytes that pairs of digits give, up to the end of the line.
unfoldable pub read_bytes : Bytes → Bytes
read_bytes [] = []
read_bytes (c ∷ []) = []
read_bytes (c ∷ d ∷ s) =
    let others = read_bytes s in
    if c == 13 then [] else (digit_value c * 16 + digit_value d) ∷ others

digit_value-hex_char : (n : ℕ) → n < 16 → digit_value (hex_char n) ≡ n
unfolding hex_char
digit_value-hex_char n h = ground arith

hex_char-ne : (n : ℕ) → n < 16 → (hex_char n == 13) ≡ false
unfolding hex_char
hex_char-ne n h = ground arith

-- What puth writes is read as the byte.
read_bytes-puth : (c : ℕ) (s : Bytes) → read_bytes (puth c ++ s) ≡ c % 256 ∷ read_bytes s
unfolding read_bytes puth
read_bytes-puth c s =
    let high = digit_value-hex_char ((c % 256) / 16) (omega arith) in
    let low = digit_value-hex_char ((c % 256) % 16) (omega arith) in
    rw (hex_char-ne ((c % 256) / 16) (omega arith), high, low)
      (ap (λ (d : ℕ). d ∷ read_bytes s) (omega arith))

-- The bytes of Gen are below 256.
abbrev pub AllBytes : Bytes → Type 0
AllBytes [] = Unit {0}
AllBytes (c ∷ s) = (c < 256) × AllBytes s

read_bytes-puth_all : (b s : Bytes) → AllBytes b → read_bytes (puth_all b ++ s) ≡ b ++ read_bytes s
unfolding puth_all
read_bytes-puth_all [] s h = refl
read_bytes-puth_all (c ∷ b) s h =
    read_bytes-puth c (puth_all b ++ s)
    ∙ rw (read_bytes-puth_all b s h.1)
        (ap (λ (d : ℕ). d ∷ (b ++ read_bytes s)) (omega (arith, h.0)))

read_bytes-zero : (s : Bytes) → read_bytes (codes "00" ++ s) ≡ 0 ∷ read_bytes s
unfolding read_bytes
read_bytes-zero s = refl

read_bytes-end : read_bytes (13 ∷ 10 ∷ []) ≡ []
unfolding read_bytes
read_bytes-end = refl

-- The bytes of a record: its length, its address, its type 0, its data and its checksum.
abbrev pub record_bytes : ℕ → Bytes → Bytes
record_bytes org buf =
    length buf % 256
    ∷ (org / 256) % 256
    ∷ (org % 256) % 256
    ∷ 0
    ∷ (buf ++ (256 - checksum_of org buf) % 256 ∷ [])

cons_same : (c : ℕ) {s t : Bytes} → s ≡ t → c ∷ s ≡ c ∷ t
cons_same c h = ap (λ (u : Bytes). c ∷ u) h

read_bytes-tail :
    (buf : Bytes) (k : ℕ)
    → AllBytes buf
    → read_bytes (puth_all buf ++ (puth k ++ 13 ∷ 10 ∷ [])) ≡ buf ++ k % 256 ∷ []
read_bytes-tail buf k h =
    read_bytes-puth_all buf (puth k ++ 13 ∷ 10 ∷ []) h
    ∙ ap (λ (u : Bytes). buf ++ u)
        (read_bytes-puth k (13 ∷ 10 ∷ []) ∙ cons_same (k % 256) read_bytes-end)

sum_of-append : (a b : Bytes) → sum_of (a ++ b) ≡ sum_of a + sum_of b
sum_of-append [] b = omega arith
sum_of-append (c ∷ a) b = omega (arith, sum_of-append a b)

sum-record_bytes : (org : ℕ) (buf : Bytes) → sum_of (record_bytes org buf) % 256 ≡ 0
sum-record_bytes org buf = omega (arith, sum_of-append buf ((256 - checksum_of org buf) % 256 ∷ []))

-- A reader of Intel HEX gets from a record its length, its address and its data, for any bytes of
-- the data, and the bytes that it reads add up to 0 modulo 256.
pub data_line-reads :
    (org : ℕ) (buf : Bytes)
    → AllBytes buf
    → (read_bytes (rest (data_line org buf)) ≡ record_bytes org buf)
      × (sum_of (read_bytes (rest (data_line org buf))) % 256 ≡ 0)
unfolding data_line
data_line-reads org buf h =
    let reads =
      read_bytes-puth (length buf) _
      ∙ cons_same (length buf % 256) (
          read_bytes-puth (org / 256) _
          ∙ cons_same ((org / 256) % 256) (
              read_bytes-puth (org % 256) _
              ∙ cons_same ((org % 256) % 256) (
                  read_bytes-zero _
                  ∙ cons_same 0 (read_bytes-tail buf (256 - checksum_of org buf) h)))) in
    (reads, ap (λ (s : Bytes). sum_of s % 256) reads ∙ sum-record_bytes org buf)
