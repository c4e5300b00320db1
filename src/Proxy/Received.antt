-- ===== src/Proxy/Received.antt =====
-- The read of `muditm_proxy` into the input buffer (proxy.c): what it makes of a buffer with space.
use mudit_m.Base.{ℕ, ◌+◌, ◌≤◌, ◌≡◌, refl, ap, true, leb, List, length, store, arith, length-store}
use mudit_m.Iobuf.{Iobuf, push_iobuf, avail_iobuf, memcpy_tail}
use mudit_m.Iobuf.Bounds.{IsValid, avail_iobuf_lem, push_iobuf-IsValid}
use mudit_m.Run.{ok}
use mudit_m.Handlers.Bounds.{IsInput}
use mudit_m.Proxy.{receive}

-- The bytes at the tail, and the push.
unfoldable pub received : Iobuf → List ℕ → ℕ → Iobuf
received iob bytes n = push_iobuf (record iob { block = store iob.block iob.tail bytes }) n

-- A read of no more than the free space stays in the block.
pub receive_lem :
    (iob : Iobuf) (bytes : List ℕ) (n : ℕ)
    → IsValid iob
    → length bytes ≤ avail_iobuf iob
    → receive iob bytes n ≡ ok (received iob bytes n)
unfolding receive received memcpy_tail
receive_lem iob bytes n v h =
    let e : leb (iob.tail + length bytes) iob.length ≡ true =
      ground (arith, avail_iobuf_lem iob v, v.within) in
    rw e refl

pub received-IsValid :
    (iob : Iobuf) (bytes : List ℕ) (n : ℕ) → IsValid iob → IsValid (received iob bytes n)
unfolding received
received-IsValid iob bytes n v = push_iobuf-IsValid _ n (record {
  allocated = omega (arith, v.allocated, length-store iob.block iob.tail bytes);
  within = v.within;
  small = v.small;
})

pub received-IsInput :
    (iob : Iobuf) (bytes : List ℕ) (n : ℕ) → IsInput iob → IsInput (received iob bytes n)
unfolding received push_iobuf
received-IsInput iob bytes n i = record {
  valid = received-IsValid iob bytes n i.valid;
  room = i.room;
}

-- A read within bounds stays so in a buffer that is the same.
pub receive_frame :
    (iob iob' : Iobuf) (bytes : List ℕ) (n : ℕ)
    → IsValid iob'
    → iob' ≡ iob
    → length bytes ≤ avail_iobuf iob
    → receive iob' bytes n ≡ ok (received iob' bytes n)
receive_frame iob iob' bytes n v e h =
    receive_lem iob' bytes n v (omega (arith, ap avail_iobuf e, h))
