-- ===== src/Iobuf/Bounds.antt =====
-- The bounds of a buffer (iobuf.c).
use mudit_m.Base.{
  ℕ, ◌+◌, ◌-◌, ◌^◌, ◌≤◌, ◌<◌, ◌≡◌, refl, ◌↔◌, none, some, List, [], ◌∷◌, ◌++◌, length, take, drop,
  arith, length-store,
}
use mudit_m.Iobuf.{
  Iobuf, new_iobuf, push_iobuf, pop_iobuf, popall_iobuf, avail_iobuf, len_iobuf, memcpy_tail,
  append_iobuf, print_iobuf,
}

-- The block has the stated length, the tail lies in it, and the length fits an `int`.
pub record IsValid (iob : Iobuf) : Type 0 where
  pub allocated : length iob.block ≡ iob.length
  pub within : iob.tail ≤ iob.length
  pub small : iob.length < 2 ^ 31

pub new_iobuf-IsValid :
    (malloc : ℕ → List ℕ) (n : ℕ)
    → length (malloc n) ≡ n
    → n < 2 ^ 31
    → IsValid (new_iobuf malloc n)
unfolding new_iobuf
new_iobuf-IsValid malloc n h small = ground arith

pub push_iobuf-IsValid : (iob : Iobuf) (n : ℕ) → IsValid iob → IsValid (push_iobuf iob n)
unfolding push_iobuf
push_iobuf-IsValid iob n v = ground arith

pub pop_iobuf-IsValid : (iob : Iobuf) (n : ℕ) → IsValid iob → IsValid (pop_iobuf iob n)
unfolding pop_iobuf
pop_iobuf-IsValid iob n v =
    ground (arith, length-store iob.block 0 (take (iob.tail - n) (drop n iob.block)))

pub length-pop_iobuf : (iob : Iobuf) (n : ℕ) → (pop_iobuf iob n).length ≡ iob.length
unfolding pop_iobuf
length-pop_iobuf iob n = ground arith

pub popall_iobuf-IsValid : (iob : Iobuf) → IsValid iob → IsValid (popall_iobuf iob)
unfolding popall_iobuf
popall_iobuf-IsValid iob v = ground arith

-- The free space and the length of a valid buffer make up its size, through the wrap of `size_t`
-- and the conversion to `int`.
pub avail_iobuf-add-len_iobuf :
    (iob : Iobuf) → IsValid iob → avail_iobuf iob + len_iobuf iob ≡ iob.length
unfolding avail_iobuf len_iobuf
avail_iobuf-add-len_iobuf iob v = ground arith

pub avail_iobuf_lem : (iob : Iobuf) → IsValid iob → avail_iobuf iob ≡ iob.length - iob.tail
unfolding avail_iobuf
avail_iobuf_lem iob v = ground arith

-- A copy to the tail writes past the block exactly when it is longer than the free space.
pub memcpy_tail_faults :
    (iob : Iobuf) (bytes : List ℕ)
    → IsValid iob
    → (memcpy_tail iob bytes ≡ none) ↔ (avail_iobuf iob < length bytes)
unfolding memcpy_tail avail_iobuf
memcpy_tail_faults iob bytes v = ground arith

-- A copy to the tail of a valid buffer writes past its block exactly if the free space is less
-- than the bytes.
pub append_iobuf_faults :
    (iob : Iobuf) (bytes : List ℕ)
    → IsValid iob
    → (append_iobuf iob bytes ≡ none) ↔ (avail_iobuf iob < length bytes)
unfolding append_iobuf avail_iobuf
append_iobuf_faults iob bytes v = ground arith

pub append_iobuf-IsValid :
    (iob : Iobuf) (bytes : List ℕ) {out : Iobuf}
    → IsValid iob
    → append_iobuf iob bytes ≡ some out
    → IsValid out
unfolding append_iobuf
append_iobuf-IsValid iob bytes v e = ground (arith, length-store iob.block iob.tail bytes)

-- A print to the tail of a valid buffer keeps it valid, however long the text is.
pub print_iobuf-IsValid :
    (iob : Iobuf) (text : List ℕ) → IsValid iob → IsValid (print_iobuf iob text)
unfolding print_iobuf
print_iobuf-IsValid iob text v =
    ground (arith, length-store iob.block iob.tail (take (avail_iobuf iob - 1) text ++ (0 ∷ [])))

-- A pop takes what it is asked for off the length, and all if it is asked for more.
pub tail-pop_iobuf : (iob : Iobuf) (n : ℕ) → (pop_iobuf iob n).tail ≡ iob.tail - n
unfolding pop_iobuf
tail-pop_iobuf iob n = ground arith

pub tail-popall_iobuf : (iob : Iobuf) → (popall_iobuf iob).tail ≡ 0
unfolding popall_iobuf
tail-popall_iobuf iob = refl
