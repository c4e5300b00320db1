-- ===== src/Handlers/Replies.antt =====
-- What the actions of handlers.c and mccp.c say, and to whom, where there is space for it.
use mudit_m.Base.{
  ℕ, ◌<◌, ◌≡◌, refl, ap, ◌∙◌, Bool, true, none, some, List, [], ◌∷◌, ◌++◌, length, arith, codes,
  drop, get_elem?,
}
use mudit_m.Libs.{Libs}
use mudit_m.Posix.{Ret}
use mudit_m.Iobuf.{contents, avail_iobuf}
use mudit_m.Iobuf.Bounds.{IsValid}
use mudit_m.Iobuf.Contents.{contents-pop_iobuf}
use mudit_m.Run.{Returns, Returns-bind}
use mudit_m.Telnet.{iac, wont}
use mudit_m.Endpoint.{Endpoint, nego_refused}
use mudit_m.Endpoint.Io.{flush_endpoint}
use mudit_m.Endpoint.Delivery.{outbound}
use mudit_m.Handlers.{pop_match, print_out, send_out, redact_match, mnes_pair}
use mudit_m.Handlers.Bounds.{IsSound}
use mudit_m.Handlers.Answers.{Says, print_out-Says, send_out-Says}
use mudit_m.Handlers.Mnes.{mnes_client_wont, mnes_will, respond_x}
use mudit_m.Handlers.Mccp.{mccp2_dont, report_compression}

-- A side whose buffers are valid, with no compression and with more than `n` bytes of space.
pub record IsOpen (L : Libs) (n : ℕ) (ep : Endpoint L) : Type 0 where
  pub sound : IsSound L ep
  pub plain : ep.mccp_out ≡ none
  pub space : n < avail_iobuf ep.iobuf_out

-- The match is taken, and its sender has been told `text`. Nothing was done to the other side.
pub record Replied (L : Libs) (n : ℕ) (text : List ℕ) (from to : Endpoint L) (handled : Bool)
    (from' to' : Endpoint L) : Type 0 where
  pub is_handled : handled ≡ true
  pub consumed : contents from'.iobuf_in ≡ drop n (contents from.iobuf_in)
  pub said : outbound L from' ≡ outbound L from ++ text
  pub untouched : to' ≡ to

-- The match is taken, and the other side has been told `text`. Nothing was said to its sender.
pub record Relayed (L : Libs) (n : ℕ) (text : List ℕ) (from to : Endpoint L) (handled : Bool)
    (from' to' : Endpoint L) : Type 0 where
  pub is_handled : handled ≡ true
  pub consumed : contents from'.iobuf_in ≡ drop n (contents from.iobuf_in)
  pub said : outbound L to' ≡ outbound L to ++ text
  pub unsaid : outbound L from' ≡ outbound L from

module _ (L : Libs) where
  abbrev pub RepliedBy :
      ℕ → List ℕ → Endpoint L → Endpoint L → Bool × Endpoint L × Endpoint L → Type 0
  RepliedBy n text from to (handled, from', to') = Replied L n text from to handled from' to'

  abbrev pub RelayedBy :
      ℕ → List ℕ → Endpoint L → Endpoint L → Bool × Endpoint L × Endpoint L → Type 0
  RelayedBy n text from to (handled, from', to') = Relayed L n text from to handled from' to'

  popped_contents :
      (n : ℕ) (from from' : Endpoint L)
      → IsValid from.iobuf_in
      → from'.iobuf_in ≡ from.iobuf_in
      → contents (pop_match L n from').iobuf_in ≡ drop n (contents from.iobuf_in)
  popped_contents n from from' v e =
      ap (λ b. contents (pop_match L n (record from { iobuf_in = b })).iobuf_in) e
      ∙ contents-pop_iobuf from.iobuf_in n v

  -- A side with valid buffers, no compression and more than three bytes of space: `respond_X`
  -- tells it IAC, X and the third byte of its block behind all that it was told before, takes the
  -- match off its input, and leaves the other side alone.
  pub respond_x_replies :
      (n x proto : ℕ) (from to : Endpoint L)
      → IsOpen L 3 from
      → get_elem? from.iobuf_in.block 2 ≡ some proto
      → Returns (RepliedBy n (iac ∷ x ∷ proto ∷ []) from to) (respond_x L n from to x)
  unfolding respond_x
  respond_x_replies n x proto from to o third =
      let text = iac ∷ x ∷ proto ∷ [] in
      rw third (
        Returns-bind (λ (r : Ret × Endpoint L). Says L text from r.1) _
          (flush_endpoint L (print_out L text from)) _
          (print_out-Says L from text o.sound.out_valid o.plain o.space)
          (λ (ret, from') k. record {
            is_handled = refl;
            consumed = popped_contents n from from' o.sound.in_valid.valid k.kept.same_in;
            said = k.said;
            untouched = refl;
          }))

  -- The client refuses NEW-ENVIRON, and the game's side has valid buffers, no compression and
  -- more than two bytes of space: the game is told IAC WILL NEW-ENVIRON behind all that it was
  -- told before, the match is off the client's input, nothing is said to the client, and the
  -- refusal is kept.
  pub mnes_client_wont_relays :
      (n : ℕ) (from to : Endpoint L)
      → IsSound L from
      → IsOpen L 2 to
      → Returns
          (λ r. RelayedBy n mnes_will from to r × (r.1.mnes_state ≡ wont))
          (mnes_client_wont L n from to)
  unfolding mnes_client_wont
  mnes_client_wont_relays n from to f o =
      Returns-bind (Says L mnes_will to) _ (send_out L mnes_will to) _
        (send_out-Says L to mnes_will o.sound.out_valid o.plain (omega (arith, o.space)))
        (λ to' k. (
          record {
            is_handled = refl;
            consumed = popped_contents n from from f.in_valid.valid refl;
            said = k.said;
            unsaid = refl;
          },
          refl,
        ))

  -- With valid buffers on both sides, and no compression and more than eight bytes of space on
  -- the other: `redact_match` takes the match off the input and tells the other side REDACTED in
  -- its place.
  pub redact_match_relays :
      (n : ℕ) (from to : Endpoint L)
      → IsSound L from
      → IsOpen L 8 to
      → Returns (RelayedBy n (codes "REDACTED") from to) (redact_match L n from to)
  unfolding redact_match
  redact_match_relays n from to f o =
      let text = codes "REDACTED" in
      Returns-bind (λ (r : Ret × Endpoint L). Says L text to r.1) _
        (flush_endpoint L (print_out L text to)) _
        (print_out-Says L to text o.sound.out_valid o.plain o.space)
        (λ r k. record {
          is_handled = refl;
          consumed = popped_contents n from from f.in_valid.valid refl;
          said = k.said;
          unsaid = refl;
        })

  -- The client refuses MCCP2, and the game's side has valid buffers, no compression and space for
  -- the report: the game is told that COMPRESSION is none, the match is off the client's input,
  -- the client's output stream is gone and the refusal is kept.
  pub mccp2_dont_relays :
      (n : ℕ) (from to : Endpoint L)
      → IsSound L from
      → IsOpen L (length (mnes_pair (codes "COMPRESSION") (codes "none"))) to
      → Returns
          (λ r.
            RelayedBy n (mnes_pair (codes "COMPRESSION") (codes "none")) from to r
            × (r.1.mccp_out ≡ none)
            × (r.1.mccp_nego ≡ nego_refused))
          (mccp2_dont L n from to)
  unfolding mccp2_dont
  mccp2_dont_relays n from to f o =
      let text = mnes_pair (codes "COMPRESSION") (codes "none") in
      Returns-bind (Says L text to) _ (report_compression L (codes "none") to) _
        (Returns-bind (λ (r : Ret × Endpoint L). Says L text to r.1) _
          (flush_endpoint L (print_out L text to)) _
          (print_out-Says L to text o.sound.out_valid o.plain o.space) (λ r k. k))
        (λ to' k. (
          record {
            is_handled = refl;
            consumed = popped_contents n from from f.in_valid.valid refl;
            said = k.said;
            unsaid = refl;
          },
          refl,
          refl,
        ))
