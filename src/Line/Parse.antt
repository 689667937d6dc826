-- ===== src/Line/Parse.antt =====
-- parse of src/main.c: the label, the directive or opcode, and the operands of a line.
use dasm.Base.{
  map, ℕ, zero, suc, ◌+◌, ◌*◌, ◌-◌, Bool, true, false, ◌&&◌, ◌||◌, List, [], ◌∷◌, ◌++◌, Bytes,
  length, take, leb, ◌==◌, if◌then◌else◌,
}
use dasm.Assign.Dynamic.{before_comma, int_text}
use dasm.Errors.{syntax_error}
use dasm.Expr.Eval.{Statics}
use dasm.Expr.Steps.{eval}
use dasm.Extension.{Extension, findext}
use dasm.Line.Cleanup.{hard_space}
use dasm.Line.Comments.{max_line}
use dasm.Run.{Run, ok, panicked, ◌>>=◌}
use dasm.State.{Symbol, Globals, has, report, sym_unknown}

abbrev pub space : ℕ
space = 32

unfoldable pub skip_spaces : Bytes → Bytes
skip_spaces [] = []
skip_spaces (c ∷ s) = let r = skip_spaces s in if c == space then r else c ∷ s

-- From where the label is read: behind `^` and its spaces; at the space in place of `#`; or from the
-- start.
unfoldable pub marked : Bytes → Bytes → Bytes
unfolding skip_spaces
marked buf [] = buf
marked buf (c ∷ s) = if c == b'^' then skip_spaces s else if c == b'#' then space ∷ s else buf

unfoldable pub label_start : Bytes → Bytes
unfolding skip_spaces marked
label_start buf = marked buf (skip_spaces buf)

-- A hard space is written as a space.
abbrev pub soft : ℕ → ℕ
soft c = if c == hard_space then space else c

-- Where Avbuf is full.
abbrev pub avbuf_end : ℕ
avbuf_end = max_line * 3 - 1

-- The label under construction: its characters, how many have been written to Avbuf, the arguments
-- that are not known, the text that has been read, as it stands in the buffer then, and the static
-- variables and globals of eval.
pub record Labelling : Type 0 where
  pub label : Bytes
  pub written : ℕ
  pub read : Bytes
  pub unset : Bool
  pub statics : Statics
  pub globals : Globals

abbrev pub read_on : Bytes → Labelling → Labelling
read_on text l = record l { read = l.read ++ text }

-- AVBUF_WRITE for each character
unfoldable pub write_label : Bytes → Labelling → Run Labelling
write_label text l =
    if leb (l.written + length text) avbuf_end
    then ok (record l { label = l.label ++ text; written = l.written + length text })
    else panicked

-- The characters of a string constant, and what follows them.
string_arg : Bytes → Bytes × Bytes
string_arg [] = ([], [])
string_arg (c ∷ s) =
    let (a, r) = string_arg s in
    if c == b'"' || c == space || c == b',' || c == b':' then ([], c ∷ s) else (c ∷ a, r)

-- What follows an argument that is evaluated.
after_arg : Bytes → Bytes
after_arg [] = []
after_arg (c ∷ s) =
    let r = after_arg s in if c == space || c == b'=' || c == b',' || c == b':' then c ∷ s else r

-- A string constant in the label, behind its quote.
label_string : Bytes → Labelling → Run (Bytes × Labelling)
unfolding string_arg write_label
label_string str l =
    let (a, r) = string_arg str in write_label a (read_on (b'"' ∷ a) l) >>= λ m. ok (closed r m)
  where
    unclosed : Bytes → Labelling → Bytes × Labelling
    unclosed r m = (r, record m { unset = true; globals = report syntax_error m.globals })

    closed : Bytes → Labelling → Bytes × Labelling
    closed [] m = unclosed [] m
    closed (c ∷ s) m = if c == b'"' then (s, read_on (c ∷ []) m) else unclosed (c ∷ s) m

-- The value of a symbol, of which Avbuf must hold one character more.
append_value : Symbol → Labelling → Run Labelling
unfolding int_text
append_value s l =
    let text = int_text s.value in
    if has s.flags sym_unknown
    then ok (record l { unset = true })
    else if leb avbuf_end (l.written + length text)
    then panicked
    else ok (record l { label = l.label ++ text; written = l.written + length text })

-- An argument in the label that is evaluated.
label_value : ℕ → Bytes → Labelling → Run (Bytes × Labelling)
unfolding eval before_comma append_value after_arg
label_value processor str l = do
  (syms, st, g) ← eval processor l.statics l.globals (before_comma (take 256 str)) false
  m ← first syms (record l { statics = st; globals = g })
  let rest = after_arg str
  ok (rest, read_on (take (length str - length rest) str) m)
  where
    first : List Symbol → Labelling → Run Labelling
    first [] m = ok m
    first (s ∷ others) m = append_value s m

-- The argument behind a comma.
label_arg : ℕ → Bytes → Labelling → Run (Bytes × Labelling)
unfolding label_string label_value
label_arg processor [] l = label_value processor [] l
label_arg processor (c ∷ s) l =
    if c == b'"' then label_string s l else label_value processor (c ∷ s) l

-- The loop over the label; each round takes a character at least. It ends in front of a space or an
-- equals sign, or behind a colon.
unfoldable pub label_loop : ℕ → ℕ → Bytes → Labelling → Run (Bytes × Labelling)
unfolding write_label label_arg
label_loop zero processor str l = ok (str, l)
label_loop (suc n) processor [] l = ok ([], l)
label_loop (suc n) processor (c ∷ s) l =
    let char = write_label (soft c ∷ []) (read_on (soft c ∷ []) l) >>= label_loop n processor s in
    let arg = label_arg processor s (read_on (c ∷ []) l) >>= λ p. label_loop n processor p.0 p.1 in
    if c == space || c == b'='
    then ok (c ∷ s, l)
    else if c == b':'
    then ok (s, read_on (c ∷ []) l)
    else if c == b','
    then arg
    else char

-- The second word, and what follows it.
unfoldable pub read_word : Bytes → Bytes × Bytes
read_word [] = ([], [])
read_word (c ∷ s) = let (a, r) = read_word s in if c == space then ([], c ∷ s) else (soft c ∷ a, r)

unfoldable pub second_word : Bytes → Bytes × Bytes
unfolding read_word
second_word [] = ([], [])
second_word (c ∷ s) = if c == b'=' then (c ∷ [], s) else read_word (c ∷ s)

-- The rest of the line, with one space for each run of spaces.
unfoldable pub operands : Bytes → Bytes
operands [] = []
operands (c ∷ []) = soft c ∷ []
operands (c ∷ d ∷ s) =
    let r = operands (d ∷ s) in if c == space && d == space then r else soft c ∷ r

-- Av[0], Av[1] as findext leaves it, and Av[2]; Mnext; what eval leaves. `buf` is the line as parse
-- leaves it.
pub record Parsed : Type 0 where
  pub label : Bytes
  pub op : Extension
  pub str : Bytes
  pub buf : Bytes
  pub statics : Statics
  pub globals : Globals

-- The line behind its label, of which the text `front` is not part. Avbuf holds the three words,
-- and a zero behind the first two.
unfoldable pub parse_rest : Bytes → Bytes → Labelling → Run Parsed
unfolding skip_spaces second_word operands findext
parse_rest front rest l =
    let (word, after) = second_word (skip_spaces rest) in
    let str = operands (skip_spaces after) in
    let label = if l.unset then [] else l.label in
    let written = if l.unset then 2 else l.written + 1 in
    if leb (l.written + 1) avbuf_end && leb (written + length word + 1 + length str) avbuf_end
    then ok (record {
      label = label;
      op = findext word;
      str = str;
      buf = front ++ (l.read ++ map soft rest);
      statics = l.statics;
      globals = l.globals;
    })
    else panicked

unfoldable pub parse : ℕ → Bytes → Statics → Globals → Run Parsed
unfolding label_start label_loop parse_rest
parse processor buf st g = do
  let begin = label_start buf
  let start : Labelling = record {
    label = [];
    written = 1;
    read = [];
    unset = false;
    statics = st;
    globals = g;
  }
  (rest, l) ← label_loop (suc (length buf)) processor begin start
  parse_rest (take (length buf - length begin) buf) rest l
