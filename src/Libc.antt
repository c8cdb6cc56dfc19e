-- ===== src/Libc.antt =====
-- src/libc/memcpy.cpp, memmove.cpp, memset.cpp, strlen.cpp and strncpy.cpp over byte-addressed memory.
-- A 64-bit access is eight bytes, the lowest first. The loops that the source controls by a count
-- run on fuel where no counter of rounds is at hand, and `none` is a loop that ran out of it.
pub mod Range
pub mod Words
pub mod Copy
pub mod Move
pub mod Fill
pub mod Text
mod Tests
use swish_kernel.Prelude.{
  ℕ, zero, suc, ◌+◌, ◌-◌, ◌*◌, ◌/◌, ◌%◌, Bool, ◌||◌, ◌&&◌, Option, none, some, ltb, leb, ◌==◌,
  if◌then◌else◌, Memory, null, write, size_mod,
}

-- The little-endian number in the `n` bytes at `a`.
abbrev pub load : ℕ → Memory → ℕ → ℕ
load zero m a = 0
load (suc n) m a = m a + 256 * load n m (a + 1)

abbrev pub store : ℕ → ℕ → ℕ → Memory → Memory
store zero a v m = m
store (suc n) a v m = store n (a + 1) (v / 256) (write m a (v % 256))

-- `*d64 = *s64` and `*d8 = *s8`.
pub copy_word : ℕ → ℕ → Memory → Memory
copy_word d s m = store 8 d (load 8 m s) m

abbrev pub copy_byte : ℕ → ℕ → Memory → Memory
copy_byte d s m = write m d (m s)

-- The variables of `memcpy` and `memmove`.
pub record Cursor : Type 0 where
  pub memory : Memory
  pub dest : ℕ
  pub src : ℕ
  pub count : ℕ

-- `*d64++ = *s64++`
pub word_up : Cursor → Cursor
word_up c = record c {
  memory = copy_word c.dest c.src c.memory;
  dest = c.dest + 8;
  src = c.src + 8;
}

pub byte_up : Cursor → Cursor
byte_up c = record c {
  memory = copy_byte c.dest c.src c.memory;
  dest = c.dest + 1;
  src = c.src + 1;
}

abbrev less : ℕ → Cursor → Cursor
less n c = record c { count = c.count - n }

pub blocks_up : ℕ → Cursor → Option Cursor
unfolding word_up
blocks_up zero c = none
blocks_up (suc fuel) c =
    let rest = blocks_up fuel (less 32 (word_up (word_up (word_up (word_up c))))) in
    if leb 32 c.count then rest else some c

pub words_up : ℕ → Cursor → Cursor
words_up zero c = c
words_up (suc chunks) c = words_up chunks (word_up c)

pub bytes_up : ℕ → Cursor → Cursor
bytes_up zero c = c
bytes_up (suc remainder) c = bytes_up remainder (byte_up c)

pub memcpy_rest : Cursor → Memory
memcpy_rest c = (bytes_up (c.count % 8) (words_up (c.count / 8) c)).memory

pub memcpy : ℕ → ℕ → ℕ → ℕ → Memory → Option Memory
memcpy fuel dest src count m =
    if dest == null || src == null
    then some m
    else elim (blocks_up fuel (record { memory = m; dest = dest; src = src; count = count })) [
      | none ↦ none
      | some c ↦ some (memcpy_rest c)
    ]

-- Pointers go down in `memmove`; the last decrement may pass 0, and its result is not used.
abbrev pub down : ℕ → ℕ → ℕ
down a k = (a + size_mod - k) % size_mod

-- `*d64-- = *s64--`
pub word_down : Cursor → Cursor
word_down c = record c {
  memory = copy_word c.dest c.src c.memory;
  dest = down c.dest 8;
  src = down c.src 8;
}

pub blocks_down : ℕ → Cursor → Option Cursor
blocks_down zero c = none
blocks_down (suc fuel) c =
    let rest = blocks_down fuel (less 32 (word_down (word_down (word_down (word_down c))))) in
    if leb 32 c.count then rest else some c

pub words_down : ℕ → Cursor → Option Cursor
words_down zero c = none
words_down (suc fuel) c =
    let rest = words_down fuel (less 8 (word_down c)) in if leb 8 c.count then rest else some c

pub bytes_down : ℕ → Cursor → Memory
bytes_down zero c = c.memory
bytes_down (suc n) c = bytes_down n (record c {
  memory = copy_byte c.dest c.src c.memory;
  dest = down c.dest 1;
  src = down c.src 1;
})

-- The branch of `memmove` that copies from the end; `n` counts down to 0 in the last loop.
pub move_down : ℕ → ℕ → ℕ → ℕ → Memory → Option Memory
move_down fuel d_addr s_addr n m =
    let start : Cursor = record {
      memory = m;
      dest = down ((d_addr + n) % size_mod) 8;
      src = down ((s_addr + n) % size_mod) 8;
      count = n;
    } in
    elim (blocks_down fuel start) [
      | none ↦ none
      | some b ↦ elim (words_down fuel b) [
        | none ↦ none
        | some w ↦ some (
            bytes_down w.count (record w {
              dest = down ((d_addr + w.count) % size_mod) 1;
              src = down ((s_addr + w.count) % size_mod) 1;
            }))
      ]
    ]

pub memmove : ℕ → ℕ → ℕ → ℕ → Memory → Option Memory
memmove fuel dest src n m =
    if dest == null || src == null || dest == src || n == 0
    then some m
    else if ltb dest src || leb ((src + n) % size_mod) dest
    then memcpy fuel dest src n m
    else move_down fuel dest src n m

pub fill_blocks : ℕ → ℕ → ℕ → ℕ → Memory → Option (ℕ × ℕ × Memory)
fill_blocks zero v64 d64 count m = none
fill_blocks (suc fuel) v64 d64 count m =
    let rest = fill_blocks fuel v64 (d64 + 32) (count - 32) (
      store 8 (d64 + 24) v64
        (store 8 (d64 + 16) v64 (store 8 (d64 + 8) v64 (store 8 d64 v64 m)))) in
    if leb 32 count then rest else some (d64, count, m)

pub fill_words : ℕ → ℕ → ℕ → Memory → Memory
fill_words zero v64 d64 m = m
fill_words (suc chunks) v64 d64 m = fill_words chunks v64 (d64 + 8) (store 8 d64 v64 m)

pub fill_bytes : ℕ → ℕ → ℕ → Memory → Memory
fill_bytes zero value d8 m = m
fill_bytes (suc n) value d8 m = fill_bytes n value (d8 + 1) (write m d8 value)

-- `ch` is given as the bit pattern of the `int`, so that `ch & 0xFF` is `ch % 256`.
pub memset : ℕ → ℕ → ℕ → ℕ → Memory → Option Memory
memset fuel dest ch count m =
    let value = ch % 256 in
    let v64 = ch % 256 * 0x0101010101010101 in
    if dest == null then some m else elim (fill_blocks fuel v64 dest count m) [
      | none ↦ none
      | some (d64, left, m') ↦
          some (fill_bytes (left % 8) value (d64 + left / 8 * 8) (fill_words (left / 8) v64 d64 m'))
    ]

-- `repne scasb`: compare, step and count down until the byte is 0 or `rcx` is.
pub scasb : ℕ → Memory → ℕ → ℕ → Option ℕ
scasb zero m rdi rcx = none
scasb (suc fuel) m rdi rcx =
    let rest = scasb fuel m (rdi + 1) (rcx - 1) in
    if rcx == 0 then some rcx else if m rdi == 0 then some (rcx - 1) else rest

-- `not` and `dec` of what is left of the all-ones count.
pub strlen : ℕ → Memory → ℕ → Option ℕ
strlen fuel m str = elim (scasb fuel m str (size_mod - 1)) [
  | none ↦ none
  | some rcx ↦ some ((size_mod - 1 - rcx + size_mod - 1) % size_mod)
]

-- The inner loop of `strncpy`: `n` rounds that write 0 from `i + 1` on.
pub pad : ℕ → ℕ → ℕ → Memory → Memory
pad zero dest i m = m
pad (suc k) dest i m = pad k dest (i + 1) (write m (dest + (i + 1)) 0)

-- `rounds` is `n - i`. After the inner loop `i` is `n - 1`, and the outer loop ends.
pub strncpy_loop : ℕ → ℕ → ℕ → ℕ → Memory → Memory
strncpy_loop zero dest src i m = m
strncpy_loop (suc rounds) dest src i m =
    let m' : Memory = write m (dest + i) (m (src + i)) in
    let rest = strncpy_loop rounds dest src (i + 1) m' in
    if m' (src + i) == 0 then pad rounds dest i m' else rest

pub strncpy : ℕ → ℕ → ℕ → Memory → Memory
strncpy dest src n m = strncpy_loop n dest src 0 m
