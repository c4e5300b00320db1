-- ===== src/Iobuf.antt =====
-- iobuf.c and iobuf.h: a contiguous byte buffer that is filled at its tail and emptied at its head.
-- `head` is the start of the allocated block, and the `tail` pointer is its offset from `head`.
pub mod Bounds
pub mod Contents
pub mod Queue
use mudit_m.Base.{
  ℕ, ◌+◌, ◌-◌, ◌%◌, ◌^◌, Option, none, some, List, [], ◌∷◌, ◌++◌, length, take, drop, store, leb,
  ltb, ◌==◌, if◌then◌else◌,
}

pub record Iobuf : Type 0 where
  pub block : List ℕ
  pub length : ℕ
  pub tail : ℕ

-- `size_t` arithmetic.
abbrev pub size_mod : ℕ
size_mod = 2 ^ 64

-- The bytes that `malloc` gives are those of the argument: any bytes, `length` of them.
unfoldable pub new_iobuf : (malloc : ℕ → List ℕ) → ℕ → Iobuf
new_iobuf malloc len = record { block = malloc len; length = len; tail = 0 }

-- The pointer moves by `len` and is brought back to the end if it passed it. The comparison is
-- between a pointer difference and a `size_t`, so it is made modulo 2^64.
unfoldable pub push_iobuf : Iobuf → ℕ → Iobuf
push_iobuf iob len =
    let moved = (iob.tail + len) % size_mod in
    record iob { tail = if ltb iob.length moved then iob.length else moved }

unfoldable pub pop_iobuf : Iobuf → ℕ → Iobuf
pop_iobuf iob len = if leb iob.tail len then record iob { tail = 0 } else record iob {
  block = store iob.block 0 (take (iob.tail - len) (drop len iob.block));
  tail = iob.tail - len;
}

unfoldable pub popall_iobuf : Iobuf → Iobuf
popall_iobuf iob = record iob { tail = 0 }

-- The free space is computed as a `size_t`, kept in an `int`, and 0 if that is negative.
unfoldable pub avail_iobuf : Iobuf → ℕ
avail_iobuf iob =
    let available = ((iob.length + size_mod - iob.tail) % size_mod) % 2 ^ 32 in
    if leb (2 ^ 31) available then 0 else available

unfoldable pub len_iobuf : Iobuf → ℕ
len_iobuf iob = iob.tail

-- The first `n` bytes at `head_iobuf`, as a reader of the pointer sees them.
abbrev pub peek_iobuf : Iobuf → ℕ → List ℕ
peek_iobuf iob n = take n iob.block

-- The bytes between `head` and `tail`.
abbrev pub contents : Iobuf → List ℕ
contents iob = take iob.tail iob.block

-- `memcpy(tail_iobuf(iob), bytes, n)` as the callers write it, with no test of the space:
-- `none` is a write past the allocated block.
unfoldable pub memcpy_tail : Iobuf → List ℕ → Option Iobuf
memcpy_tail iob bytes =
    if leb (iob.tail + length bytes) iob.length
    then some (record iob { block = store iob.block iob.tail bytes })
    else none

-- `g_snprintf(tail_iobuf(iob), avail_iobuf(iob), ...)` of a format that yields `text`: it writes
-- at most `avail - 1` bytes and a NUL, and nothing into no space. (It returns the length of `text`.)
unfoldable pub snprintf_tail : Iobuf → List ℕ → Iobuf
snprintf_tail iob text =
    let space = avail_iobuf iob in
    if space == 0
    then iob
    else record iob { block = store iob.block iob.tail (take (space - 1) text ++ (0 ∷ [])) }

-- The two ways in which the program appends to a buffer: a copy or a print at the tail, and a push
-- of its length.
unfoldable pub append_iobuf : Iobuf → List ℕ → Option Iobuf
unfolding memcpy_tail push_iobuf
append_iobuf iob bytes = elim (memcpy_tail iob bytes) [
  | none ↦ none
  | some copied ↦ some (push_iobuf copied (length bytes))
]

unfoldable pub print_iobuf : Iobuf → List ℕ → Iobuf
unfolding snprintf_tail push_iobuf
print_iobuf iob text = push_iobuf (snprintf_tail iob text) (length text)
