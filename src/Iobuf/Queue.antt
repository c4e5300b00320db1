-- ===== src/Iobuf/Queue.antt =====
-- The buffer of iobuf.c as a queue of bytes of bounded length, operation by operation.
use mudit_m.Base.{
  ℕ, ◌-◌, ◌^◌, ◌<◌, ◌≡◌, refl, sym, Option, none, some, List, [], ◌∷◌, ◌++◌, length, take, drop,
  arith, leb, ltb, leb→le, Bool-cases, inl, inr, if◌then◌else◌, ◌==◌,
}
use mathlib.Core.Option.{map}
use mudit_m.Iobuf.{
  Iobuf, pop_iobuf, popall_iobuf, avail_iobuf, contents, append_iobuf, print_iobuf, len_iobuf,
}
use mudit_m.Iobuf.Bounds.{
  IsValid, pop_iobuf-IsValid, popall_iobuf-IsValid, append_iobuf-IsValid, print_iobuf-IsValid,
  append_iobuf_faults, avail_iobuf_lem,
}
use mudit_m.Iobuf.Contents.{
  length-contents, contents-pop_iobuf, append_iobuf_fits, contents-print_iobuf,
  contents-print_iobuf_short,
}

-- What the program does with a buffer.
pub data Use : Type 0 where
  appends prints : List ℕ → Use
  pops : ℕ → Use
  pops_all : Use

-- The uses in turn, on the buffer; `none` is a write past the block.
abbrev pub use_iobuf : Use → Iobuf → Option Iobuf
use_iobuf (appends bytes) iob = append_iobuf iob bytes
use_iobuf (prints text) iob = some (print_iobuf iob text)
use_iobuf (pops n) iob = some (pop_iobuf iob n)
use_iobuf pops_all iob = some (popall_iobuf iob)

abbrev pub use_all : List Use → Iobuf → Option Iobuf
use_all [] iob = some iob
use_all (u ∷ uses) iob = elim (use_iobuf u iob) [ none ↦ none | some iob' ↦ use_all uses iob' ]

-- A queue of at most `size` bytes; a text that is too long is cut and its last byte is a NUL.
abbrev pub printed : (size : ℕ) → List ℕ → List ℕ → List ℕ
printed size text queue =
    let room = size - length queue in
    if ltb (length text) room
    then queue ++ text
    else if room == 0
    then queue
    else queue ++ (take (room - 1) text ++ (0 ∷ []))

abbrev pub use_queue : (size : ℕ) → Use → List ℕ → Option (List ℕ)
use_queue size (appends bytes) queue =
    if leb (length bytes) (size - length queue) then some (queue ++ bytes) else none
use_queue size (prints text) queue = some (printed size text queue)
use_queue size (pops n) queue = some (drop n queue)
use_queue size pops_all queue = some []

abbrev pub use_all_queue : (size : ℕ) → List Use → List ℕ → Option (List ℕ)
use_all_queue size [] queue = some queue
use_all_queue size (u ∷ uses) queue = elim (use_queue size u queue) [
  | none ↦ none
  | some queue' ↦ use_all_queue size uses queue'
]

-- Each text that is printed is shorter than 2^63.
abbrev pub IsShort : List Use → Type 0
IsShort [] = Unit
IsShort (prints text ∷ uses) = (length text < 2 ^ 63) × IsShort uses
IsShort (_ ∷ uses) = IsShort uses

room_of : (iob : Iobuf) → IsValid iob → iob.length - length (contents iob) ≡ avail_iobuf iob
unfolding len_iobuf
room_of iob v = rw (length-contents iob v) (sym (avail_iobuf_lem iob v))

-- What a single use does to a buffer, told of the queue.
abbrev Agrees : ℕ → Option Iobuf → Option (List ℕ) → Type 0
Agrees size none none = Unit
Agrees size none (some queue) = ⊥
Agrees size (some iob) none = ⊥
Agrees size (some iob) (some queue) = (contents iob ≡ queue) × (IsValid iob × (iob.length ≡ size))

length-append_iobuf :
    (iob : Iobuf) (bytes : List ℕ) {out : Iobuf}
    → append_iobuf iob bytes ≡ some out
    → out.length ≡ iob.length
unfolding append_iobuf
length-append_iobuf iob bytes e = ground arith

length-print_iobuf : (iob : Iobuf) (text : List ℕ) → (print_iobuf iob text).length ≡ iob.length
unfolding print_iobuf
length-print_iobuf iob text = ground arith

length-pop_iobuf : (iob : Iobuf) (n : ℕ) → (pop_iobuf iob n).length ≡ iob.length
unfolding pop_iobuf
length-pop_iobuf iob n = ground arith

contents-print_iobuf_full :
    (iob : Iobuf) (text : List ℕ)
    → IsValid iob
    → avail_iobuf iob ≡ 0
    → length text < 2 ^ 63
    → contents (print_iobuf iob text) ≡ contents iob
unfolding print_iobuf
contents-print_iobuf_full iob text v e short = ground (arith, avail_iobuf_lem iob v)

printed_lem :
    (iob : Iobuf) (text : List ℕ)
    → IsValid iob
    → length text < 2 ^ 63
    → contents (print_iobuf iob text) ≡ printed iob.length text (contents iob)
printed_lem iob text v short =
    rw (room_of iob v) (elim (Bool-cases (ltb (length text) (avail_iobuf iob))) [
      | inl fits ↦ rw fits (contents-print_iobuf iob text v (ground arith))
      | inr long ↦ rw long (elim (Bool-cases (avail_iobuf iob == 0)) [
        | inl full ↦ rw full (contents-print_iobuf_full iob text v (ground arith) short)
        | inr some_space ↦
            rw some_space
              (contents-print_iobuf_short iob text v (ground arith) (ground arith) short)
      ])
    ])

appended :
    (iob : Iobuf) (bytes : List ℕ)
    → IsValid iob
    → Agrees iob.length
        (append_iobuf iob bytes)
        (use_queue iob.length (appends bytes) (contents iob))
appended iob bytes v =
    rw (room_of iob v) (elim (Bool-cases (leb (length bytes) (avail_iobuf iob))) [
      | inl fits ↦
          let (out, e, c) = append_iobuf_fits iob bytes v (leb→le _ _ fits) in
          rw (fits, e) (c, (append_iobuf-IsValid iob bytes v e, length-append_iobuf iob bytes e))
      | inr long ↦ rw (long, (append_iobuf_faults iob bytes v).1 (ground arith)) tt
    ])

agrees :
    (u : Use) (iob : Iobuf)
    → IsValid iob
    → IsShort (u ∷ [])
    → Agrees iob.length (use_iobuf u iob) (use_queue iob.length u (contents iob))
unfolding popall_iobuf
agrees (appends bytes) iob v short = appended iob bytes v
agrees (prints text) iob v short =
    (printed_lem iob text v short.0, (print_iobuf-IsValid iob text v, length-print_iobuf iob text))
agrees (pops n) iob v short =
    (contents-pop_iobuf iob n v, (pop_iobuf-IsValid iob n v, length-pop_iobuf iob n))
agrees pops_all iob v short = (refl, (popall_iobuf-IsValid iob v, refl))

IsShort-head : (u : Use) (uses : List Use) → IsShort (u ∷ uses) → IsShort (u ∷ [])
IsShort-head (appends bytes) uses h = tt
IsShort-head (prints text) uses h = (h.0, tt)
IsShort-head (pops n) uses h = tt
IsShort-head pops_all uses h = tt

IsShort-tail : (u : Use) (uses : List Use) → IsShort (u ∷ uses) → IsShort uses
IsShort-tail (appends bytes) uses h = h
IsShort-tail (prints text) uses h = h.1
IsShort-tail (pops n) uses h = h
IsShort-tail pops_all uses h = h

onwards :
    (uses : List Use) (size : ℕ) (after : Option Iobuf) (queue : Option (List ℕ))
    → Agrees size after queue
    → ((iob : Iobuf)
        → IsValid iob
        → map contents (use_all uses iob) ≡ use_all_queue iob.length uses (contents iob))
    → map contents (elim after [ none ↦ none | some iob' ↦ use_all uses iob' ])
      ≡ elim queue [ none ↦ none | some q ↦ use_all_queue size uses q ]
onwards uses size none none a h = refl
onwards uses size none (some q) a h = absurd a
onwards uses size (some iob') none a h = absurd a
onwards uses size (some iob') (some q) a h = rw (sym a.0, sym a.1.1) (h iob' a.1.0)

-- Any uses of a valid buffer - copies to its tail, prints of texts shorter than 2^63 bytes, pops
-- of some bytes and of all - do to its contents what they do to a queue of at most as many bytes
-- as the buffer has: a copy that does not fit, and only that, is a write past the block, and a
-- print that does not fit is cut behind one byte less than the space, with a NUL as the last
-- byte.
pub use_all-Refines :
    (uses : List Use) (iob : Iobuf)
    → IsValid iob
    → IsShort uses
    → map contents (use_all uses iob) ≡ use_all_queue iob.length uses (contents iob)
use_all-Refines [] iob v short = refl
use_all-Refines (u ∷ uses) iob v short =
    onwards uses iob.length _ _ (agrees u iob v (IsShort-head u uses short))
      (λ iob' v'. use_all-Refines uses iob' v' (IsShort-tail u uses short))
