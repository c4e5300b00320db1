-- ===== src/Endpoint/Arrivals.antt =====
-- What is still to come at a socket, and what a read of proxy.c takes of it.
use mudit_m.Base.{
  ℕ, ◌≡◌, refl, sym, ap, ◌∙◌, Bool, true, false, none, List, [], ◌∷◌, ◌++◌, take, drop, Bool-cases,
  inl, inr, ◌==◌, take-append-drop,
}
use mathlib.Core.List.{append_assoc}
use mudit_m.Libs.{Libs}
use mudit_m.Posix.{Ret, ReadEvent, arrived, again, hangup, broken}
use mudit_m.Run.{Returns, Returns-bind, Returns-both, Returns-weaken}
use mudit_m.Endpoint.{Endpoint}
use mudit_m.Endpoint.Sock.{read_script, read_endpoint_sock, keep}
use mudit_m.Endpoint.Reads.{Answers, Settles, ReadFrom, ReadBy, read_endpoint_sock-Returns}
use mudit_m.Endpoint.Io.{read_endpoint}
use mudit_m.Endpoint.Inflates.{read_endpoint_plain}

-- The bytes that the events of a script bring, in order.
abbrev pub to_come : List ReadEvent → List ℕ
to_come [] = []
to_come (arrived bytes ∷ rest) = bytes ++ to_come rest
to_come (_ ∷ rest) = to_come rest

to_come-keep :
    (bytes : List ℕ) (rest : List ReadEvent) → to_come (keep bytes rest) ≡ bytes ++ to_come rest
to_come-keep [] rest = refl
to_come-keep (b ∷ bytes) rest = refl

-- A read loses and repeats nothing.
abbrev Taking : List ReadEvent → Ret × List ℕ × List ReadEvent → Type 0
Taking script (ret, bytes, rest) = bytes ++ to_come rest ≡ to_come script

read_script-Taking :
    (ssl : Bool) (script : List ReadEvent) (n : ℕ)
    → Settles ssl script
    → Returns (Taking script) (read_script ssl script n)
unfolding read_script
read_script-Taking true [] n s = absurd s
read_script-Taking false [] n s = refl
read_script-Taking true (again ∷ rest) n s = read_script-Taking true rest n s
read_script-Taking false (again ∷ rest) n s = refl
read_script-Taking true (hangup ∷ rest) n s = refl
read_script-Taking false (hangup ∷ rest) n s = refl
read_script-Taking true (broken e ∷ rest) n s = refl
read_script-Taking false (broken e ∷ rest) n s = refl
read_script-Taking ssl (arrived bytes ∷ rest) n s = elim (Bool-cases (n == 0)) [
  | inl none_asked ↦ rw none_asked refl
  | inr some_asked ↦
      rw (some_asked, to_come-keep (drop n bytes) rest)
        (sym (append_assoc (take n bytes) (drop n bytes) (to_come rest))
          ∙ ap (λ t. t ++ to_come rest) (take-append-drop n bytes))
]

-- A read on a plain connection.
pub record Fetched (L : Libs) (n : ℕ) (ep : Endpoint L) (ret : Ret) (bytes : List ℕ)
    (ep' : Endpoint L) : Type 0 where
  pub frame : ReadFrom L n ep ret bytes ep'
  pub conveyed : bytes ++ to_come ep'.wire.incoming ≡ to_come ep.wire.incoming
  pub same_sent : ep'.wire.sent ≡ ep.wire.sent
  pub same_mccp_in : ep'.mccp_in ≡ ep.mccp_in

abbrev pub FetchedBy : (L : Libs) → ℕ → Endpoint L → Ret × List ℕ × Endpoint L → Type 0
FetchedBy L n ep (ret, bytes, ep') = Fetched L n ep ret bytes ep'

module _ (L : Libs) where
  abbrev Moved : Endpoint L → Ret × List ℕ × Endpoint L → Type 0
  Moved ep (ret, bytes, ep') =
      (bytes ++ to_come ep'.wire.incoming ≡ to_come ep.wire.incoming)
      × (ep'.wire.sent ≡ ep.wire.sent)
      × (ep'.mccp_in ≡ ep.mccp_in)

  read_endpoint_sock-Moved :
      (ep : Endpoint L) (n : ℕ) → Answers L ep → Returns (Moved ep) (read_endpoint_sock L ep n)
  unfolding read_endpoint_sock
  read_endpoint_sock-Moved ep n live =
      Returns-bind (Taking ep.wire.incoming) _ (read_script ep.ssl ep.wire.incoming n) _
        (read_script-Taking ep.ssl ep.wire.incoming n live)
        (λ (ret, bytes, rest) t. (t, refl, refl))

  pub read_endpoint_sock-Fetched :
      (ep : Endpoint L) (n : ℕ)
      → Answers L ep
      → Returns (FetchedBy L n ep) (read_endpoint_sock L ep n)
  read_endpoint_sock-Fetched ep n live =
      Returns-weaken (λ r. ReadBy L n ep r × Moved ep r) _ (read_endpoint_sock L ep n)
        (Returns-both (ReadBy L n ep) (Moved ep) (read_endpoint_sock L ep n)
          (read_endpoint_sock-Returns L ep n live) (read_endpoint_sock-Moved ep n live))
        (λ (ret, bytes, ep') k. record {
          frame = k.0;
          conveyed = k.1.0;
          same_sent = k.1.1;
          same_mccp_in = k.1.2;
        })

  pub read_endpoint-Fetched :
      (ep : Endpoint L) (n : ℕ)
      → ep.mccp_in ≡ none
      → Answers L ep
      → Returns (FetchedBy L n ep) (read_endpoint L ep n)
  read_endpoint-Fetched ep n plain live =
      rw (read_endpoint_plain L ep n plain) (read_endpoint_sock-Fetched ep n live)
