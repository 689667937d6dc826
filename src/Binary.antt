-- ===== src/Binary.antt =====
-- src/ftobin.c: the output files of the assembler as raw binary files.
use dasm.Base.{
  ℕ, zero, suc, ◌+◌, ◌-◌, ◌%◌, ◌^◌, [], ◌++◌, Bytes, length, take, drop, replicate, ltb, ◌==◌,
  if◌then◌else◌,
}
use dasm.Hex.{getwlh}

-- What the loops change: the output file and its position, maxseek, org, buf and the rest of the input.
pub record Copying : Type 0 where
  pub output : Bytes
  pub position : ℕ
  pub maxseek : ℕ
  pub org : ℕ
  pub buf : Bytes
  pub input : Bytes

-- sizeof(buf)
abbrev buf_size : ℕ
buf_size = 256

-- fwrite at the position; a file that is written behind its end has zeros up to there.
unfoldable pub fwrite : Bytes → Copying → Copying
fwrite bytes c =
    let n = length c.output in
    record c {
      output =
          take c.position (c.output ++ replicate (c.position - n) 0)
          ++ bytes
          ++ drop (c.position + length bytes) c.output;
      position = c.position + length bytes;
    }

-- fread (buf, idx, 1, in): a file that ends early leaves the end of buf as it was.
abbrev fread : ℕ → Copying → Copying
fread idx c =
    let got = take idx c.input in
    record c { buf = got ++ drop (length got) c.buf; input = drop idx c.input }

-- The data of a record; each round takes a byte at least, so the length is enough fuel.
unfoldable pub copy_data : ℕ → ℕ → Copying → Copying
unfolding fwrite
copy_data zero len c = c
copy_data (suc n) len c =
    let idx = if ltb len buf_size then len else buf_size in
    let r = fread idx c in
    let next =
      copy_data n (len - idx)
        (record (fwrite (take idx r.buf) r) { org = (r.org + idx) % 2 ^ 16 }) in
    if len == 0 then c else next

-- The gap in front of a record, in pieces of at most the size of buf, which memset has filled. It is
-- written at the position of the output file.
unfoldable pub fill_gap : ℕ → Copying → Copying
unfolding fwrite
fill_gap len c = if len == 0 then c else record (fwrite (replicate len 255) c) {
  maxseek = c.maxseek + len;
  buf = replicate buf_size 255;
}

-- maxseek, behind a record: org - base is an int, which may be negative.
abbrev seek_forward : ℕ → Copying → Copying
seek_forward base c =
    if ltb (base + c.maxseek) c.org then record c { maxseek = c.org - base } else c

-- for (;;), for the format RAS; each round but the last reads two bytes at least. A record in front of
-- the first one ends the conversion with a message.
unfoldable pub copy_records : ℕ → ℕ → ℕ → Copying → Copying
unfolding copy_data fill_gap getwlh
copy_records zero base len c = c
copy_records (suc n) base len c =
    let d = seek_forward base (copy_data len len c) in
    let (org, s, eof) = getwlh d.input in
    let e = record d { org = org; input = s } in
    let f = fill_gap (org - base - e.maxseek) e in
    let (len', s', eof') = getwlh s in
    let next = copy_records n base len' (record f { position = org - base; input = s' }) in
    if eof then e else if ltb org base then e else next

-- convert, at the bytes of the file and what buf holds before it is written.
unfoldable pub convert_binary : ℕ → Bytes → Bytes → Bytes
unfolding copy_data copy_records getwlh
convert_binary format buf file =
    let (org, s, eof) = getwlh file in
    let (len, s', eof') = getwlh s in
    let start : Copying = record {
      output = [];
      position = 0;
      maxseek = 0;
      org = 0;
      buf = buf;
      input = file;
    } in
    let done =
      if format == 2
      then copy_records (suc (length file)) org len (record start { org = org; input = s' })
      else if ltb format 3
      then copy_data (length s) (length s) (record start { org = org; input = s })
      else copy_data (length file) (length file) start in
    done.output
