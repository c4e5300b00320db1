-- ===== src/Main/Session/Opening.antt =====
-- The sides that `main` (muditm.c) hands to the proxy: new endpoints, with TLS or plain, and the line
-- with the addresses sent to the game.
pub mod Secured
pub mod Stops
use mudit_m.Base.{
  ℕ, zero, suc, ◌+◌, ◌-◌, ◌||◌, codes, decimal, length-decimal_port, ◌^◌, drop, length-drop,
  length-append, Bool-cases, ◌≤◌, ◌<◌, ◌≡◌, ◌≢◌, refl, sym, ap, ◌∙◌, Bool, true, false, Option,
  none, some, List, [], ◌∷◌, ◌++◌, length, take, store, arith, length-store, Option-cases, inl, inr,
  leb, if◌then◌else◌, le→leb,
}
use mathlib.Core.Path.{subst}
use mudit_m.Libs.{Libs, DeflateLaws}
use mudit_m.Posix.{Ret, Wire, Address}
use mudit_m.Run.{Run, ok, in_bounds, ◌>>=◌, Returns, Returns-bind, Returns-weaken}
use mudit_m.Iostats.{Timeval}
use mudit_m.Iobuf.{Iobuf, push_iobuf, print_iobuf, memcpy_tail, contents, avail_iobuf}
use mudit_m.Iobuf.Bounds.{
  IsValid, avail_iobuf_lem, new_iobuf-IsValid, print_iobuf-IsValid, push_iobuf-IsValid,
}
use mudit_m.Iobuf.Contents.{contents-print_iobuf}
use mudit_m.Endpoint.{Endpoint, new_endpoint, ep_bufsize}
use mudit_m.Endpoint.Io.{flush_endpoint, starts, mapped, unmap}
use mudit_m.Endpoint.Delivery.{outbound, outbound-flush_endpoint}
use mudit_m.Endpoint.Header.{stunnel_proxy_header1, header_of, print_header, header_text}
use mudit_m.Endpoint.Header.Reading.{read_line, IsWord, read_line-header_text}
use mudit_m.Endpoint.Reads.{Answers}
use mudit_m.Handlers.Bounds.{IsSound, Sent, Sent-refl, flush-Sent}
use mudit_m.Main.Session.{announce}
use Prim.Native.String.{String}

pub new_endpoint-IsSound :
    (L : Libs) (malloc : ℕ → List ℕ) (now : Timeval) (wire : Wire) (name : Option String)
    → ((n : ℕ) → length (malloc n) ≡ n)
    → IsSound L (new_endpoint L malloc now wire name)
unfolding new_endpoint
new_endpoint-IsSound L malloc now wire name h =
    let v = new_iobuf-IsValid malloc ep_bufsize (h ep_bufsize) (omega arith) in
    record { in_valid = record { valid = v; room = omega arith }; out_valid = v }

-- An empty buffer whose first byte was set to 0.
record Cleared (out out' : Iobuf) : Type 0 where
  pub copied : memcpy_tail out (0 ∷ []) ≡ some out'
  pub valid : IsValid out'
  pub empty : out'.tail ≡ 0
  pub same_length : out'.length ≡ out.length

cleared :
    (out : Iobuf) → IsValid out → out.tail ≡ 0 → 0 < out.length → (out' : Iobuf) × Cleared out out'
unfolding memcpy_tail
cleared out v e room = (
  record out { block = store out.block out.tail (0 ∷ []) },
  record {
    copied = rw (le→leb (out.tail + 1) out.length (omega arith)) refl;
    valid = record {
      allocated = length-store out.block out.tail (0 ∷ []) ∙ v.allocated;
      within = v.within;
      small = v.small;
    };
    empty = e;
    same_length = refl;
  },
)

printed_header-IsValid :
    (text : Option (List ℕ)) (out : Iobuf)
    → IsValid out
    → IsValid (push_iobuf (print_header text out).1 (print_header text out).0)
unfolding print_iobuf
printed_header-IsValid none out v = push_iobuf-IsValid out 0 v
printed_header-IsValid (some text) out v = print_iobuf-IsValid out text v

module _ (L : Libs) (deflates : DeflateLaws L) where
  -- The line with the addresses goes out, if it is asked for, or nothing does.
  pub announce-Sent :
      (b : Bool) (client game : Endpoint L)
      → IsSound L game
      → game.iobuf_out.tail ≡ 0
      → 0 < game.iobuf_out.length
      → Returns (Sent L game) (announce L b client game)
  unfolding announce stunnel_proxy_header1
  announce-Sent false client game s e room = Sent-refl L game s
  announce-Sent true client game s e room =
      let (out, c) = cleared game.iobuf_out s.out_valid e room in
      rw c.copied (
        Returns-bind (λ (r : Ret × Endpoint L). Sent L game r.1) _ _ _
          (flush-Sent L deflates game _ s
            (printed_header-IsValid (header_of client.wire.peer client.wire.here) out c.valid))
          (λ r k. k))

IsWord-drop : (n : ℕ) (text : List ℕ) → IsWord text → IsWord (drop n text)
IsWord-drop zero text h = h
IsWord-drop (suc n) [] h = tt
IsWord-drop (suc n) (c ∷ text) h = IsWord-drop n text h.1

IsWord-unmap : (text : List ℕ) → IsWord text → IsWord (unmap text)
unfolding unmap
IsWord-unmap text h = elim (Bool-cases (starts mapped text)) [
  | inl hit ↦ rw hit (IsWord-drop 7 text h)
  | inr other ↦ rw other h
]

length-unmap : (text : List ℕ) → length (unmap text) ≤ length text
unfolding unmap
length-unmap text = elim (Bool-cases (starts mapped text)) [
  | inl hit ↦ rw hit (omega (arith, length-drop 7 text))
  | inr other ↦ rw other (omega arith)
]

length-family : (b : Bool) → length (if b then codes "TCP4" else codes "TCP6") ≡ 4
length-family true = refl
length-family false = refl

length-header_text :
    (b : Bool) (src dst : List ℕ) (sport dport : ℕ)
    → length (header_text b (unmap src) (unmap dst) sport dport)
      ≤ length src + length dst + length (decimal sport) + length (decimal dport) + 16
unfolding header_text
length-header_text b src dst sport dport = omega (
  arith,
  length-family b,
  length-unmap src,
  length-unmap dst,
  length-append (if b then codes "TCP4" else codes "TCP6") _,
  length-append (unmap src) _,
  length-append (unmap dst) _,
  length-append (decimal sport) _,
  length-append (decimal dport) (13 ∷ 10 ∷ []),
)

module _ (L : Libs) where
  -- What the game is sent, if it is sent the line and there is space for it.
  pub announce_header :
      (client game : Endpoint L) (line : List ℕ)
      → header_of client.wire.peer client.wire.here ≡ some line
      → IsValid game.iobuf_out
      → game.iobuf_out.tail ≡ 0
      → length line < game.iobuf_out.length
      → game.mccp_out ≡ none
      → Returns (λ g. outbound L g ≡ game.wire.sent ++ line) (announce L true client game)
  unfolding announce stunnel_proxy_header1 print_iobuf
  announce_header client game line e v empty room plain =
      let (out, c) = cleared game.iobuf_out v empty (omega (arith, room)) in
      let fits : length line < avail_iobuf out =
        omega (arith, room, c.empty, c.same_length, avail_iobuf_lem out c.valid) in
      rw (c.copied, e)
        (Returns-bind
          (λ (r : Ret × Endpoint L).
            (outbound L r.1 ≡ game.wire.sent ++ contents (print_iobuf out line))
            × IsValid r.1.iobuf_out)
          _ _ _
          (outbound-flush_endpoint L (record game { iobuf_out = print_iobuf out line })
            (print_iobuf-IsValid out line c.valid) plain)
          (λ r k.
            k.0
            ∙ ap (λ t. game.wire.sent ++ t)
                (contents-print_iobuf out line c.valid fits
                  ∙ ap (λ n. take n out.block ++ line) c.empty)))

  -- The addresses of the client's socket are to be had and have no space in them, the ports are
  -- below 2^16, and the game's side is valid, empty, without compression and with more than 26
  -- bytes beside the two addresses, and was sent nothing: a reader of the PROXY line finds in
  -- what the game is sent, or waits to be, the family, both addresses as IPv4 where they are
  -- mapped, both ports, and the end of the line with nothing behind it.
  pub announce_read :
      (client game : Endpoint L) (src dst : List ℕ) (sport dport : ℕ)
      → client.wire.peer ≡ some (src, sport)
      → client.wire.here ≡ some (dst, dport)
      → IsWord src
      → IsWord dst
      → IsSound L game
      → game.iobuf_out.tail ≡ 0
      → sport < 2 ^ 16
      → dport < 2 ^ 16
      → length src + length dst + 26 < game.iobuf_out.length
      → game.mccp_out ≡ none
      → game.wire.sent ≡ []
      → Returns
          (λ g. read_line (outbound L g) ≡ record {
            family = if starts mapped src || starts mapped dst then codes "TCP4" else codes "TCP6";
            source = unmap src;
            destination = unmap dst;
            source_port = sport;
            destination_port = dport;
            ending = 13 ∷ 10 ∷ [];
          })
          (announce L true client game)
  announce_read client game src dst sport dport p h s d sound empty sp dp room plain fresh =
      let b = starts mapped src || starts mapped dst in
      let line = header_text b (unmap src) (unmap dst) sport dport in
      Returns-weaken (λ g. outbound L g ≡ game.wire.sent ++ line) _ _
        (announce_header client game line (rw (p, h) refl) sound.out_valid empty
          (omega (
            arith,
            room,
            length-decimal_port sport sp,
            length-decimal_port dport dp,
            length-header_text b src dst sport dport,
          ))
          plain)
        (λ g k.
          ap read_line (k ∙ ap (λ t. t ++ line) fresh)
          ∙ read_line-header_text b (unmap src) (unmap dst) sport dport (IsWord-unmap src s)
              (IsWord-unmap dst d))
