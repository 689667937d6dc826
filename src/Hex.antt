-- ===== src/Hex.antt =====
-- src/ftohex.c: the output files of the assembler as Intel HEX records.
pub mod Lines
use dasm.Base.{
  ℕ, zero, suc, ◌+◌, ◌-◌, ◌*◌, ◌/◌, ◌%◌, ◌^◌, Bool, true, false, List, [], ◌∷◌, ◌++◌, Bytes, codes,
  length, take, drop, ltb, ◌==◌, if◌then◌else◌,
}

-- dig[n]
unfoldable pub hex_char : ℕ → ℕ
hex_char n = if ltb n 10 then b'0' + n else b'A' + (n - 10)

-- puth, at an unsigned char
unfoldable pub puth : ℕ → Bytes
unfolding hex_char
puth c = hex_char ((c % 256) / 16) ∷ hex_char ((c % 256) % 16) ∷ []

unfoldable pub puth_all : Bytes → Bytes
unfolding puth
puth_all [] = []
puth_all (c ∷ s) = puth c ++ puth_all s

abbrev pub sum_of : Bytes → ℕ
sum_of [] = 0
sum_of (c ∷ s) = c + sum_of s

abbrev pub checksum_of : ℕ → Bytes → ℕ
checksum_of org buf = (length buf + org / 256 + org % 256 + sum_of buf) % 256

-- One record, for the `idx` bytes of buf.
unfoldable pub data_line : ℕ → Bytes → Bytes
unfolding puth puth_all
data_line org buf =
    b':'
    ∷ (puth (length buf)
        ++ (puth (org / 256)
            ++ (puth (org % 256)
                ++ (codes "00"
                    ++ (puth_all buf ++ (puth (256 - checksum_of org buf) ++ 13 ∷ 10 ∷ []))))))

-- getwlh, what is left of the file, and whether its end was met.
unfoldable pub getwlh : Bytes → ℕ × Bytes × Bool
getwlh [] = (0, [], true)
getwlh (lo ∷ []) = (0, [], true)
getwlh (lo ∷ hi ∷ s) = (lo + hi * 256, s, false)

abbrev pub perline : ℕ
perline = 16

-- What the loops change: the text that was written, the origin, buf and the file behind the position.
pub record Conversion : Type 0 where
  pub text : Bytes
  pub org : ℕ
  pub buf : Bytes
  pub input : Bytes

-- fread (buf, idx, 1, in): a file that ends early leaves the end of buf as it was.
abbrev fread : ℕ → Conversion → Conversion
fread idx c =
    let got = take idx c.input in
    record c { buf = got ++ drop (length got) c.buf; input = drop idx c.input }

-- while (len > 0); each round takes a byte at least, so the length is enough fuel.
unfoldable pub convert_data : ℕ → ℕ → Conversion → Conversion
unfolding data_line
convert_data zero len c = c
convert_data (suc n) len c =
    let idx = if ltb perline len then perline else len in
    let r = fread idx c in
    let next = convert_data n (len - idx) (record r {
      text = r.text ++ data_line r.org (take idx r.buf);
      org = (r.org + idx) % 2 ^ 32;
    }) in
    if len == 0 then c else next

-- for (;;), for the format RAS; each round reads two bytes at least.
convert_records : ℕ → ℕ → Conversion → Conversion
unfolding convert_data getwlh
convert_records zero len c = c
convert_records (suc n) len c =
    let d = convert_data len len c in
    let (org, s, eof) = getwlh d.input in
    let (len', s', eof') = getwlh s in
    let next = convert_records n len' (record d { org = org; input = s' }) in
    if eof then (record d { org = org; input = s }) else next

-- convert, at the bytes of the file and what buf holds before it is written.
unfoldable pub convert : ℕ → Bytes → Bytes → Bytes
unfolding convert_data convert_records getwlh
convert format buf file =
    let (org, s, eof) = getwlh file in
    let (len, s', eof') = getwlh s in
    let ended = codes ":00000001FF" ++ 13 ∷ 10 ∷ [] in
    let done =
      if format == 2
      then convert_records (suc (length file)) len
          (record { text = []; org = org; buf = buf; input = s' })
      else if ltb format 3
      then convert_data (length s) (length s)
          (record { text = []; org = org; buf = buf; input = s })
      else convert_data (length file) (length file)
          (record { text = []; org = 0; buf = buf; input = file }) in
    done.text ++ ended
