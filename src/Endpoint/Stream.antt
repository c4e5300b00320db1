-- ===== src/Endpoint/Stream.antt =====
-- `read_endpoint_compressed` and `write_endpoint_compressed` of mccp.c: a connection behind zlib.
-- The loops take fuel, which is computed from the state at the call.
use mudit_m.Base.{
  ℕ, zero, suc, ◌+◌, Bool, false, none, some, List, [], ◌∷◌, length, drop, ltb, ◌==◌, if◌then◌else◌,
}
use mudit_m.Libs.{Libs, Inflated, inflated, problem}
use mudit_m.Posix.{other_errno, Ret, count, failed, ReadEvent, arrived}
use mudit_m.Iostats.{iostat_incr}
use mudit_m.Run.{Run, ok, spins, ◌>>=◌}
use mudit_m.Endpoint.{Endpoint, ep_bufsize}
use mudit_m.Endpoint.Sock.{read_endpoint_sock, write_endpoint_sock}

-- `n > 0` of the `int` that a call returned.
abbrev pub is_positive : Ret → Bool
is_positive (count n) = ltb 0 n
is_positive (failed _) = false

-- A bound on the reads that a script of events can serve.
abbrev pub load : List ReadEvent → ℕ
load [] = 0
load (arrived bytes ∷ rest) = suc (length bytes + load rest)
load (_ ∷ rest) = suc (load rest)

-- What `inflate` is called with: bytes that were left or just read, or the end of the call.
pub data Refill : Type 0 where
  input : List ℕ → Refill
  stop : Ret → Refill

module _ (L : Libs) where
  -- "Need more bytes?"
  unfoldable pub refill : Endpoint L → List ℕ → Run (Refill × Endpoint L)
  refill ep [] = do
    (readsize, bytes, ep') ← read_endpoint_sock L ep ep_bufsize
    ok (if is_positive readsize then input bytes else stop readsize, ep')
  refill ep (b ∷ waiting) = ok (input (b ∷ waiting), ep)

  -- A call of `inflate` has returned: the loop goes round again if it has put nothing out. What a
  -- call that is not `Z_OK` has put out is not returned, and its input is not there any more.
  unfoldable pub after_inflate :
      (again : L.Inflater → List ℕ → Endpoint L → Run (Ret × List ℕ × Endpoint L))
      → L.Inflater
      → List ℕ
      → Endpoint L
      → Inflated L.Inflater
      → Run (Ret × List ℕ × Endpoint L)
  after_inflate again z bytes ep (problem z' used output errno) = ok (
    failed errno,
    [],
    record ep { mccp_in = some (record { state = z'; next_in = drop used bytes }) },
  )
  after_inflate again z bytes ep (inflated z' used []) = again z' (drop used bytes) ep
  after_inflate again z bytes ep (inflated z' used (b ∷ output)) =
      let total_out = count (suc (length output)) in
      ok (
        total_out,
        b ∷ output,
        record ep {
          mccp_in = some (record { state = z'; next_in = drop used bytes });
          mccpstats = iostat_incr ep.mccpstats total_out (count 0);
        },
      )

  -- The bytes that there are go to `inflate`, or the read that found none ends the call.
  unfoldable pub after_refill :
      (again : L.Inflater → List ℕ → Endpoint L → Run (Ret × List ℕ × Endpoint L))
      → L.Inflater
      → ℕ
      → Refill × Endpoint L
      → Run (Ret × List ℕ × Endpoint L)
  after_refill again z n (stop readsize, ep) =
      ok (readsize, [], record ep { mccp_in = some (record { state = z; next_in = [] }) })
  after_refill again z n (input bytes, ep) = after_inflate again z bytes ep (L.inflate z bytes n)

  -- The do loop.
  unfoldable pub inflate_loop :
      ℕ → L.Inflater → List ℕ → ℕ → Endpoint L → Run (Ret × List ℕ × Endpoint L)
  inflate_loop zero z waiting n ep = spins
  inflate_loop (suc fuel) z waiting n ep =
      refill ep waiting
      >>= after_refill (λ z' waiting' ep'. inflate_loop fuel z' waiting' n ep') z n

  unfoldable pub read_endpoint_compressed : Endpoint L → ℕ → Run (Ret × List ℕ × Endpoint L)
  read_endpoint_compressed ep n = elim ep.mccp_in [
    | none ↦ read_endpoint_sock L ep n
    | some z ↦
        inflate_loop (suc (suc (length z.next_in + load ep.wire.incoming))) z.state z.next_in n ep
  ]

  -- The do loop over output blocks of EP_BUFSIZE. `consumed` counts the earlier rounds, and
  -- `used` is `zstr->total_in`, which a round that was written sets back to 0.
  unfoldable pub deflate_loop : ℕ → L.Deflater → List ℕ → ℕ → Endpoint L → Run (Ret × Endpoint L)
  deflate_loop zero z buf consumed ep = spins
  deflate_loop (suc fuel) z buf consumed ep = elim (L.deflate z buf ep_bufsize) [
    | none ↦ ok (failed other_errno, ep)
    | some (z', used, output) ↦
        let (ret, ep') = write_endpoint_sock L (record ep { mccp_out = some z' }) output in
        let again = deflate_loop fuel z' (drop used buf) (consumed + used) ep' in
        let stats =
          λ (n : ℕ). record ep' { mccpstats = iostat_incr ep'.mccpstats (count 0) (count n) } in
        if is_positive ret
        then if length output == ep_bufsize then again else ok (count 0, stats (consumed + used))
        else if consumed == 0
        then ok (ret, ep')
        else ok (count used, stats consumed)
  ]

  unfoldable pub write_endpoint_compressed : Endpoint L → List ℕ → Run (Ret × Endpoint L)
  write_endpoint_compressed ep buf = elim ep.mccp_out [
    | none ↦ ok (write_endpoint_sock L ep buf)
    | some z ↦ deflate_loop (suc (L.deflate_debt z buf)) z buf 0 ep
  ]
