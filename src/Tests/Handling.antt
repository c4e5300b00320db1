-- ===== src/Tests/Handling.antt =====
-- The theorems on the actions of handlers.c and mccp.c, on the text of the patterns, and on the
-- writes of an endpoint, applied.
use mudit_m.Base.{ℕ, ◌<◌, ◌≡◌, ◌↔◌, refl, false, none, some, [], ◌∷◌, ◌++◌, length, arith, codes}
use mudit_m.Iobuf.{avail_iobuf}
use mudit_m.Iobuf.Bounds.{IsValid}
use mudit_m.Run.{ok, overrun, no_space, Returns}
use mudit_m.Telnet.{wont}
use mudit_m.Endpoint.{Endpoint, nego_refused}
use mudit_m.Endpoint.Delivery.{outbound, outbound-flush_endpoint}
use mudit_m.Endpoint.Compressed.{flush_endpoint_keeps}
use mudit_m.Endpoint.Inflates.{Yields, read_endpoint-Yields}
use mudit_m.Endpoint.Io.{addr_endpoint, flush_endpoint, read_endpoint}
use mudit_m.Handlers.{send_out, mnes_pair}
use mudit_m.Handlers.Bounds.{IsSound}
use mudit_m.Handlers.Mnes.{mnes_client_wont, mnes_request, mnes_will}
use mudit_m.Handlers.Mccp.{mccp2_dont}
use mudit_m.Handlers.Patterns.{print_patterns}
use mudit_m.Handlers.Patterns.Text.{alternation, print_patterns-alternation, print_patterns_cuts}
use mudit_m.Conf.{KeyFile}
use mudit_m.Handlers.Requests.{ReportedBy, mnes_request_reports}
use mudit_m.Handlers.Replies.{IsOpen, RelayedBy, mnes_client_wont_relays, mccp2_dont_relays}
use mudit_m.Handlers.Faults.{send_out_faults, mnes_client_wont_faults}
use mudit_m.Tests.Toy.{toy, toy_deflates, toy_inflates}
use mudit_m.Tests.Sides.{side, switched, noting, side-IsSound}

abbrev talker : Endpoint toy
talker = side (codes "oh hi bye now") []

abbrev listener : Endpoint toy
listener = side [] []

talker-IsSound : IsSound toy talker
talker-IsSound = side-IsSound (codes "oh hi bye now") [] (omega arith)

listener-IsSound : IsSound toy listener
listener-IsSound = side-IsSound [] [] (omega arith)

talker-IsOpen : IsOpen toy 3 talker
unfolding avail_iobuf
talker-IsOpen = record { sound = talker-IsSound; plain = refl; space = omega arith }

listener-IsOpen : (n : ℕ) → n < 64 → IsOpen toy n listener
unfolding avail_iobuf
listener-IsOpen n h = record { sound = listener-IsSound; plain = refl; space = h }

-- A key file that names one variable.
abbrev reporting : KeyFile
reporting = record (switched false) { get_string_list = λ group key. some (codes "IP" ∷ []) }

mnes_request_reports_example :
    Returns
      (ReportedBy toy reporting 3 talker listener)
      (mnes_request toy reporting 3 talker listener)
unfolding avail_iobuf addr_endpoint
mnes_request_reports_example =
    mnes_request_reports toy reporting 3 talker listener talker-IsSound refl (omega arith)

mnes_client_wont_relays_example :
    Returns
      (λ r. RelayedBy toy 3 mnes_will talker listener r × (r.1.mnes_state ≡ wont))
      (mnes_client_wont toy 3 talker listener)
mnes_client_wont_relays_example =
    mnes_client_wont_relays toy 3 talker listener talker-IsSound (listener-IsOpen 2 (omega arith))

mccp2_dont_relays_example :
    Returns
      (λ r.
        RelayedBy toy 3 (mnes_pair (codes "COMPRESSION") (codes "none")) talker listener r
        × (r.1.mccp_out ≡ none)
        × (r.1.mccp_nego ≡ nego_refused))
      (mccp2_dont toy 3 talker listener)
mccp2_dont_relays_example =
    mccp2_dont_relays toy 3 talker listener talker-IsSound
      (listener-IsOpen (length (mnes_pair (codes "COMPRESSION") (codes "none"))) (omega arith))

send_out_faults_example :
    (send_out toy mnes_will listener ≡ overrun no_space) ↔ (avail_iobuf listener.iobuf_out < 3)
send_out_faults_example = send_out_faults toy toy_deflates mnes_will listener listener-IsSound

mnes_client_wont_faults_example :
    (mnes_client_wont toy 3 talker listener ≡ overrun no_space)
    ↔ (avail_iobuf listener.iobuf_out < 3)
mnes_client_wont_faults_example =
    mnes_client_wont_faults toy toy_deflates 3 talker listener listener-IsSound

print_patterns-alternation_example :
    print_patterns noting ([], 0) ≡ ok (alternation noting, length (alternation noting))
print_patterns-alternation_example = print_patterns-alternation noting (omega arith)

print_patterns_cuts_example :
    print_patterns (record { pat = codes "a" ++ (0 ∷ codes "b"); action = none } ∷ noting) ([], 0)
    ≡ print_patterns (record { pat = codes "a" ++ (0 ∷ []); action = none } ∷ noting) ([], 0)
print_patterns_cuts_example = print_patterns_cuts (codes "a") (codes "b") [] none noting

abbrev waiting : Endpoint toy
waiting = record listener { iobuf_out = talker.iobuf_in }

outbound-flush_endpoint_example :
    Returns
      (λ r. (outbound toy r.1 ≡ outbound toy waiting) × IsValid r.1.iobuf_out)
      (flush_endpoint toy waiting)
outbound-flush_endpoint_example =
    outbound-flush_endpoint toy waiting talker-IsSound.in_valid.valid refl

abbrev packed : Endpoint toy
packed = record listener { mccp_in = some (record { state = tt; next_in = codes "hi" }) }

read_endpoint-Yields_example : Returns (Yields toy 1 packed) (read_endpoint toy packed 1)
read_endpoint-Yields_example = read_endpoint-Yields toy toy_inflates 1 packed tt

flush_endpoint_keeps_example :
    Returns
      (λ r. r.1.iobuf_out ≡ waiting.iobuf_out)
      (flush_endpoint toy (record waiting { mccp_out = some tt }))
flush_endpoint_keeps_example =
    flush_endpoint_keeps toy toy_deflates (record waiting { mccp_out = some tt }) tt refl refl
