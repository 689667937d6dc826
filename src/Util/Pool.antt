-- ===== src/Util/Pool.antt =====
-- small_alloc and small_free_all of src/util.c.
pub mod Regions
use dasm.Base.{
  ℕ, ◌+◌, ◌-◌, ◌*◌, ◌/◌, ◌%◌, ◌^◌, Bool, Option, none, some, List, [], ◌∷◌, ltb, ◌==◌,
  if◌then◌else◌,
}
use dasm.Run.{Run, ok, panicked, ◌>>=◌}

-- An address in the block that a call of malloc returned.
pub record Place : Type 0 where
  pub block : ℕ
  pub offset : ℕ

-- new_permalloc_stack, small_alloc_buf and small_alloc_left; `fresh` stands for the address of the next
-- block.
pub record Pool : Type 0 where
  pub stack : List ℕ
  pub buf : Option Place
  pub left : ℕ
  pub fresh : ℕ

-- size_t
abbrev pub size_limit : ℕ
size_limit = 2 ^ 64

-- The size of the union align.
abbrev pub alignment : ℕ
alignment = 8

-- ALLOCSIZE
abbrev pub alloc_size : ℕ
alloc_size = 16384

abbrev pub round_up : ℕ → ℕ
round_up x = ((x + (alignment - 1)) % size_limit / alignment) * alignment

-- The room in a block behind its pointer to the next one.
abbrev pub block_room : ℕ
block_room = alloc_size - 8

-- A new block, where malloc has one.
unfoldable pub new_block : Bool → Pool → Run Pool
new_block available p =
    if available
    then ok (record p {
      stack = p.fresh ∷ p.stack;
      buf = some (record { block = p.fresh; offset = 8 });
      left = block_room;
      fresh = p.fresh + 1;
    })
    else panicked

-- `bytes` are taken from the block; an assertion fails at none.
unfoldable pub take_at : Option Place → ℕ → Pool → Run (Place × Pool)
take_at none bytes p = panicked
take_at (some at) bytes p =
    if bytes == 0
    then panicked
    else ok (
      at,
      record p {
        buf = some (record { block = at.block; offset = at.offset + bytes });
        left = p.left - bytes;
      },
    )

abbrev pub take_bytes : ℕ → Pool → Run (Place × Pool)
take_bytes bytes p = take_at p.buf bytes p

unfoldable pub small_alloc : Bool → ℕ → Pool → Run (Place × Pool)
unfolding new_block take_at
small_alloc available bytes p =
    let n = round_up bytes in
    if bytes == 0
    then panicked
    else if ltb p.left n
    then (if ltb block_room n then panicked else new_block available p >>= take_bytes n)
    else take_bytes n p

unfoldable pub small_free_all : Pool → Pool
small_free_all p = record p { stack = []; buf = none; left = 0 }
