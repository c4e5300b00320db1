-- ===== src/Endpoint/Reads.antt =====
-- The reads of proxy.c, on a plain socket and under TLS.
use mudit_m.Base.{
  ℕ, suc, ◌+◌, ◌≤◌, ◌<◌, ◌≡◌, refl, Bool, true, false, List, [], ◌∷◌, arith, length, take, drop,
  length-take, length-drop, Bool-cases, inl, inr, ltb→lt, ◌==◌,
}
use mudit_m.Libs.{Libs}
use mudit_m.Posix.{Ret, count, failed, ReadEvent, arrived, again, hangup, broken}
use mudit_m.Run.{Returns, Returns-bind, Returns-weaken}
use mudit_m.Endpoint.{Endpoint}
use mudit_m.Endpoint.Sock.{read_script, read_endpoint_sock, keep}
use mudit_m.Endpoint.Stream.{load, is_positive}

-- A count goes with as many bytes, and -1 with none.
abbrev pub Counts : Ret → List ℕ → Type 0
Counts (count n) bytes = n ≡ length bytes
Counts (failed e) bytes = bytes ≡ []

-- The peer hangs up in the end.
abbrev pub Hangs : List ReadEvent → Type 0
Hangs [] = ⊥
Hangs (hangup ∷ rest) = Unit
Hangs (_ ∷ rest) = Hangs rest

-- A read has something to return: a plain socket has at any time, and TLS if the peer hangs up in the
-- end, whatever it sends before.
abbrev pub Settles : Bool → List ReadEvent → Type 0
Settles false script = Unit
Settles true script = Hangs script

abbrev pub Answers : (L : Libs) → Endpoint L → Type 0
Answers L ep = Settles ep.ssl ep.wire.incoming

-- A script that is left after a read, and one that is shorter if bytes came.
record Taken (n : ℕ) (ssl : Bool) (script : List ReadEvent) (ret : Ret) (bytes : List ℕ)
    (rest : List ReadEvent) : Type 0 where
  pub counts : Counts ret bytes
  pub bounded : length bytes ≤ n
  pub lighter : length bytes + load rest ≤ load script
  pub shrinks : is_positive ret ≡ true → load rest < load script
  pub settles : Settles ssl rest

abbrev TakenBy : ℕ → Bool → List ReadEvent → Ret × List ℕ × List ReadEvent → Type 0
TakenBy n ssl script (ret, bytes, rest) = Taken n ssl script ret bytes rest

load-keep :
    (bytes : List ℕ) (rest : List ReadEvent)
    → load (keep bytes rest) ≤ suc (length bytes + load rest)
load-keep [] rest = omega arith
load-keep (b ∷ bytes) rest = omega arith

Settles-keep :
    (ssl : Bool) (bytes more : List ℕ) (rest : List ReadEvent)
    → Settles ssl (arrived bytes ∷ rest)
    → Settles ssl (keep more rest)
Settles-keep false bytes more rest h = tt
Settles-keep true bytes [] rest h = h
Settles-keep true bytes (b ∷ more) rest h = h

-- A read that returns no bytes.
no_bytes_read :
    (n : ℕ) (ssl : Bool) (script rest : List ReadEvent) (ret : Ret)
    → Counts ret []
    → is_positive ret ≡ false
    → load rest ≤ load script
    → Settles ssl rest
    → Taken n ssl script ret [] rest
no_bytes_read n ssl script rest ret c p h s = record {
  counts = c;
  bounded = omega arith;
  lighter = omega arith;
  shrinks = λ e. cc;
  settles = s;
}

arrived-Taken :
    (ssl : Bool) (bytes : List ℕ) (rest : List ReadEvent) (n : ℕ)
    → Settles ssl (arrived bytes ∷ rest)
    → Returns (TakenBy n ssl (arrived bytes ∷ rest)) (read_script ssl (arrived bytes ∷ rest) n)
unfolding read_script
arrived-Taken ssl bytes rest n s = elim (Bool-cases (n == 0)) [
  | inl none_asked ↦ rw none_asked (
      no_bytes_read n ssl (arrived bytes ∷ rest) (arrived bytes ∷ rest) (count 0) refl refl
        (omega arith) s)
  | inr some_asked ↦ rw some_asked (record {
    counts = refl;
    bounded = omega (arith, length-take n bytes);
    lighter =
        omega (arith, length-take n bytes, length-drop n bytes, load-keep (drop n bytes) rest);
    shrinks = λ e. omega (
      arith,
      ltb→lt 0 (length (take n bytes)) e,
      length-take n bytes,
      length-drop n bytes,
      load-keep (drop n bytes) rest,
    );
    settles = Settles-keep ssl bytes (drop n bytes) rest s;
  })
]

read_script-Taken :
    (ssl : Bool) (script : List ReadEvent) (n : ℕ)
    → Settles ssl script
    → Returns (TakenBy n ssl script) (read_script ssl script n)
unfolding read_script
read_script-Taken true [] n s = absurd s
read_script-Taken false [] n s = no_bytes_read n false [] [] _ refl refl (omega arith) tt
read_script-Taken true (again ∷ rest) n s =
    Returns-weaken (TakenBy n true rest) _ (read_script true rest n)
      (read_script-Taken true rest n s)
      (λ r t. record {
        counts = t.counts;
        bounded = t.bounded;
        lighter = omega (arith, t.lighter);
        shrinks = λ e. omega (arith, t.shrinks e);
        settles = t.settles;
      })
read_script-Taken false (again ∷ rest) n s =
    no_bytes_read n false _ rest _ refl refl (omega arith) tt
read_script-Taken true (hangup ∷ rest) n s = no_bytes_read n true _ _ _ refl refl (omega arith) s
read_script-Taken false (hangup ∷ rest) n s = no_bytes_read n false _ _ _ refl refl (omega arith) tt
read_script-Taken true (broken e ∷ rest) n s =
    no_bytes_read n true _ rest _ refl refl (omega arith) s
read_script-Taken false (broken e ∷ rest) n s =
    no_bytes_read n false _ rest _ refl refl (omega arith) tt
read_script-Taken ssl (arrived bytes ∷ rest) n s = arrived-Taken ssl bytes rest n s

-- What a read leaves of its endpoint.
pub record ReadFrom (L : Libs) (n : ℕ) (ep : Endpoint L) (ret : Ret) (bytes : List ℕ)
    (ep' : Endpoint L) : Type 0 where
  pub counts : Counts ret bytes
  pub bounded : length bytes ≤ n
  pub same_in : ep'.iobuf_in ≡ ep.iobuf_in
  pub same_out : ep'.iobuf_out ≡ ep.iobuf_out
  pub same_re : ep'.re ≡ ep.re
  pub same_patterns : ep'.patterns ≡ ep.patterns
  pub same_mccp_out : ep'.mccp_out ≡ ep.mccp_out
  pub same_outgoing : ep'.wire.outgoing ≡ ep.wire.outgoing
  pub answers : Answers L ep → Answers L ep'
  pub lighter : length bytes + load ep'.wire.incoming ≤ load ep.wire.incoming
  pub shrinks : is_positive ret ≡ true → load ep'.wire.incoming < load ep.wire.incoming

abbrev pub ReadBy : (L : Libs) → ℕ → Endpoint L → Ret × List ℕ × Endpoint L → Type 0
ReadBy L n ep (ret, bytes, ep') = ReadFrom L n ep ret bytes ep'

module _ (L : Libs) where
  pub read_endpoint_sock-Returns :
      (ep : Endpoint L) (n : ℕ) → Answers L ep → Returns (ReadBy L n ep) (read_endpoint_sock L ep n)
  unfolding read_endpoint_sock
  read_endpoint_sock-Returns ep n live =
      Returns-bind (TakenBy n ep.ssl ep.wire.incoming) _ (read_script ep.ssl ep.wire.incoming n) _
        (read_script-Taken ep.ssl ep.wire.incoming n live)
        (λ (ret, bytes, rest) t. record {
          counts = t.counts;
          bounded = t.bounded;
          same_in = refl;
          same_out = refl;
          same_re = refl;
          same_patterns = refl;
          same_mccp_out = refl;
          same_outgoing = refl;
          answers = λ a. t.settles;
          lighter = omega (arith, t.lighter);
          shrinks = t.shrinks;
        })
