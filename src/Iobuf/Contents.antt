-- ===== src/Iobuf/Contents.antt =====
-- The bytes that a buffer (iobuf.c) holds.
use mudit_m.Base.{
  ℕ, ◌+◌, ◌-◌, ◌^◌, ◌≤◌, ◌<◌, ◌≡◌, refl, ◌∙◌, sym, some, List, [], ◌∷◌, ◌++◌, length, take, drop,
  store, arith, take-store, length-take, length-drop, length-append, take_all, drop_all, drop-take,
  take-store_part, Bool-cases, inl, inr, leb, leb→le,
}
use mudit_m.Iobuf.{
  Iobuf, pop_iobuf, popall_iobuf, avail_iobuf, len_iobuf, contents, append_iobuf, print_iobuf,
}
use mudit_m.Iobuf.Bounds.{IsValid, avail_iobuf_lem}

take-store_front :
    (block xs : List ℕ) (n : ℕ) → n ≡ length xs → n ≤ length block → take n (store block 0 xs) ≡ xs
take-store_front block xs n e h = take-store block 0 xs n (omega arith) (omega arith)

pub length-contents : (iob : Iobuf) → IsValid iob → length (contents iob) ≡ len_iobuf iob
unfolding len_iobuf
length-contents iob v = omega (arith, length-take iob.tail iob.block)

-- A pop of n bytes from a valid buffer drops the first n bytes of its contents, and all of them
-- if n is more than there is.
pub contents-pop_iobuf :
    (iob : Iobuf) (n : ℕ) → IsValid iob → contents (pop_iobuf iob n) ≡ drop n (contents iob)
unfolding pop_iobuf
contents-pop_iobuf iob n v = elim (Bool-cases (leb iob.tail n)) [
  | inl all ↦ rw all (
      sym
        (drop_all n (contents iob) (omega (arith, length-take iob.tail iob.block, leb→le _ _ all))))
  | inr some_left ↦ rw some_left (
      take-store_front iob.block (take (iob.tail - n) (drop n iob.block)) (iob.tail - n)
        (omega (arith, length-take (iob.tail - n) (drop n iob.block), length-drop n iob.block))
        (omega arith)
      ∙ sym (drop-take n iob.tail iob.block))
]

pub contents-popall_iobuf : (iob : Iobuf) → contents (popall_iobuf iob) ≡ []
unfolding popall_iobuf
contents-popall_iobuf iob = refl

-- What a copy that fits and a print do to the fields.
append_iobuf_lem :
    (iob : Iobuf) (bytes : List ℕ)
    → IsValid iob
    → length bytes ≤ avail_iobuf iob
    → append_iobuf iob bytes
      ≡ some (record iob { block = store iob.block iob.tail bytes; tail = iob.tail + length bytes })
unfolding append_iobuf
append_iobuf_lem iob bytes v fits = ground (arith, avail_iobuf_lem iob v)

print_iobuf_fits :
    (iob : Iobuf) (text : List ℕ)
    → IsValid iob
    → length text < avail_iobuf iob
    → print_iobuf iob text ≡ record iob {
      block = store iob.block iob.tail (text ++ (0 ∷ []));
      tail = iob.tail + length text;
    }
unfolding print_iobuf
print_iobuf_fits iob text v fits =
    ground (arith, avail_iobuf_lem iob v, take_all (avail_iobuf iob - 1) text (omega arith))

print_iobuf_short :
    (iob : Iobuf) (text : List ℕ)
    → IsValid iob
    → 0 < avail_iobuf iob
    → avail_iobuf iob ≤ length text
    → length text < 2 ^ 63
    → print_iobuf iob text ≡ record iob {
      block = store iob.block iob.tail (take (avail_iobuf iob - 1) text ++ (0 ∷ []));
      tail = iob.length;
    }
unfolding print_iobuf
print_iobuf_short iob text v some_space short small = ground (arith, avail_iobuf_lem iob v)

-- A copy of bytes that fit into the free space of a valid buffer stays in its block and puts them
-- behind the contents.
pub append_iobuf_fits :
    (iob : Iobuf) (bytes : List ℕ)
    → IsValid iob
    → length bytes ≤ avail_iobuf iob
    → (out : Iobuf) × (append_iobuf iob bytes ≡ some out) × (contents out ≡ contents iob ++ bytes)
append_iobuf_fits iob bytes v fits = (
  record iob { block = store iob.block iob.tail bytes; tail = iob.tail + length bytes },
  append_iobuf_lem iob bytes v fits,
  take-store iob.block iob.tail bytes (iob.tail + length bytes)
      (omega (arith, avail_iobuf_lem iob v)) refl,
)

-- A print of a text that is shorter than the free space of a valid buffer puts the text behind
-- its contents.
pub contents-print_iobuf :
    (iob : Iobuf) (text : List ℕ)
    → IsValid iob
    → length text < avail_iobuf iob
    → contents (print_iobuf iob text) ≡ contents iob ++ text
contents-print_iobuf iob text v fits =
    rw (print_iobuf_fits iob text v fits) (
      take-store_part iob.block iob.tail text (0 ∷ []) _ (omega (arith, avail_iobuf_lem iob v))
        refl)

-- A print of a text that does not fit into some free space of a valid buffer puts behind its
-- contents the first bytes of the text and a NUL.
pub contents-print_iobuf_short :
    (iob : Iobuf) (text : List ℕ)
    → IsValid iob
    → 0 < avail_iobuf iob
    → avail_iobuf iob ≤ length text
    → length text < 2 ^ 63
    → contents (print_iobuf iob text)
      ≡ contents iob ++ (take (avail_iobuf iob - 1) text ++ (0 ∷ []))
contents-print_iobuf_short iob text v some_space short small =
    rw (print_iobuf_short iob text v some_space short small)
      (take-store iob.block iob.tail _ iob.length (omega (arith, room)) (omega (arith, room)))
  where
    room : iob.tail + length (take (avail_iobuf iob - 1) text ++ (0 ∷ [])) ≡ iob.length
    room = omega (
      arith,
      avail_iobuf_lem iob v,
      length-append (take (avail_iobuf iob - 1) text) (0 ∷ []),
      length-take (avail_iobuf iob - 1) text,
    )
