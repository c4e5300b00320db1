-- ===== src/Handlers/Faults.antt =====
-- Where the actions of handlers.c and mccp.c have no space for their message or no stream.
use mudit_m.Base.{ℕ, ◌<◌, ◌≡◌, refl, ◌↔◌, List, length, Option-cases, inl, inr}
use mudit_m.Libs.{Libs, DeflateLaws}
use mudit_m.Iobuf.{avail_iobuf, append_iobuf}
use mudit_m.Iobuf.Bounds.{append_iobuf_faults, append_iobuf-IsValid}
use mudit_m.Run.{Run, ok, overrun, no_space, stray, spins, exits, ◌>>=◌, Returns}
use mudit_m.Endpoint.{Endpoint}
use mudit_m.Endpoint.Io.{flush_endpoint}
use mudit_m.Handlers.{send_out}
use mudit_m.Handlers.Bounds.{IsSound, Sent, flush-Sent}
use mudit_m.Handlers.Mnes.{mnes_client_wont, mnes_will}

-- Nothing that a returned value is handed on to makes it a fault.
Returns-on {ℓ κ} :
    {A : Type ℓ} {B : Type κ} (P : A → Type 0) (m : Run A) (g : A → B)
    → Returns P m
    → (m >>= λ a. ok (g a)) ≡ overrun no_space
    → ⊥
Returns-on P (ok a) g h e = cc
Returns-on P (overrun x) g h e = h
Returns-on P spins g h e = h
Returns-on P exits g h e = h

overruns_on {ℓ κ} :
    {A : Type ℓ} {B : Type κ} (m : Run A) (g : A → B)
    → ((m >>= λ a. ok (g a)) ≡ overrun no_space) ↔ (m ≡ overrun no_space)
overruns_on (ok a) g = (λ e. cc, λ e. cc)
overruns_on (overrun no_space) g = (λ e. refl, λ e. refl)
overruns_on (overrun stray) g = (λ e. cc, λ e. cc)
overruns_on spins g = (λ e. cc, λ e. cc)
overruns_on exits g = (λ e. cc, λ e. cc)

module _ (L : Libs) (laws : DeflateLaws L) where
  -- On a side with valid buffers a message that is copied to the output buffer is written past
  -- its end exactly if the buffer has less space than the message is long, with or without
  -- compression and whatever the socket does.
  pub send_out_faults :
      (message : List ℕ) (ep : Endpoint L)
      → IsSound L ep
      → (send_out L message ep ≡ overrun no_space) ↔ (avail_iobuf ep.iobuf_out < length message)
  send_out_faults message ep s =
      let faults = append_iobuf_faults ep.iobuf_out message s.out_valid in
      elim (Option-cases (append_iobuf ep.iobuf_out message)) [
        | inl full ↦ (λ e. faults.0 full, λ lt. rw full refl)
        | inr (out, fits) ↦ (
          λ e. absurd (
              Returns-on (λ r. Sent L ep r.1) (flush_endpoint L (record ep { iobuf_out = out }))
                (λ r. r.1)
                (flush-Sent L laws ep out s
                  (append_iobuf-IsValid ep.iobuf_out message s.out_valid fits))
                (rw fits at e)),
          λ lt. let full = faults.1 lt in cc,
        )
      ]

  -- With a valid output buffer on the game's side, the action for the client's refusal of
  -- NEW-ENVIRON writes past the end of that buffer exactly if less than three bytes of space are
  -- left in it.
  pub mnes_client_wont_faults :
      (n : ℕ) (from to : Endpoint L)
      → IsSound L to
      → (mnes_client_wont L n from to ≡ overrun no_space) ↔ (avail_iobuf to.iobuf_out < 3)
  unfolding mnes_client_wont
  mnes_client_wont_faults n from to s =
      let a = overruns_on (send_out L mnes_will to) _ in
      let b = send_out_faults mnes_will to s in (λ e. b.0 (a.0 e), λ lt. a.1 (b.1 lt))
