-- ===== src/Libs.antt =====
-- What the program takes from libraries: zlib's streams and PCRE2's matcher, as parameters.
use mudit_m.Base.{ℕ, ◌+◌, ◌≤◌, ◌<◌, ◌≡◌, ◌≢◌, Option, some, List, length, drop}
use mudit_m.Posix.{Errno}

-- One call of `inflate`: the stream behind it, how much of its input it has consumed and what it has
-- put out. If the result is not `Z_OK` (as at the end of the compressed stream) it may have done both,
-- too, and the caller finds in `errno` what an earlier call left.
pub data Inflated (I : Type 0) : Type 0 where
  inflated : (stream : I) (consumed : ℕ) (output : List ℕ) → Inflated I
  problem : (stream : I) (consumed : ℕ) (output : List ℕ) (errno : Errno) → Inflated I

-- One call of `pcre2_match`: its code and the first pair of its output vector. `found` has a code
-- of 0 or more, and `failed` is a negative code other than the two that are named.
pub data MatchResult : Type 0 where
  nomatch : MatchResult
  partial : MatchResult
  found : (code start end : ℕ) → MatchResult
  failed : (start end : ℕ) → MatchResult

pub record Libs : Type 1 where
  -- zlib: an output stream, an input stream, and `deflate` and `inflate` under `Z_SYNC_FLUSH`. A
  -- call is given its input and the output space, and tells what it consumed and put out.
  pub Deflater : Type 0
  pub Inflater : Type 0
  pub deflate_init : Option Deflater
  pub inflate_init : Option Inflater
  pub deflate : Deflater → List ℕ → ℕ → Option (Deflater × ℕ × List ℕ)
  pub inflate : Inflater → List ℕ → ℕ → Inflated Inflater
  -- The bytes that a stream still has to put out for an input and the flush behind it.
  pub deflate_debt : Deflater → List ℕ → ℕ
  -- PCRE2.
  pub Code : Type 0
  pub pcre2_compile : List ℕ → Option Code
  pub pcre2_match : Code → List ℕ → MatchResult

-- zlib's manual: `deflate` stays in the space it is given, what it puts out is paid off, and a call
-- that succeeds under `Z_SYNC_FLUSH` has put something out.
pub record DeflateLaws (L : Libs) : Type 0 where
  pub deflate_pays :
      (d e : L.Deflater) (input output : List ℕ) (space used : ℕ)
      → L.deflate d input space ≡ some (e, used, output)
      → (length output ≤ space)
        × (L.deflate_debt e (drop used input) + length output ≤ L.deflate_debt d input)
        × (0 < length output)

-- zlib's manual: `inflate` stays in its input and in the space it is given, and a call that succeeds
-- has made some progress.
pub record InflateLaws (L : Libs) : Type 0 where
  pub inflate_moves :
      (z z' : L.Inflater) (input output : List ℕ) (space used : ℕ)
      → L.inflate z input space ≡ inflated z' used output
      → (length output ≤ space) × (used ≤ length input) × (0 < used + length output)

-- pcre2api, of an expression that is an alternation of texts that are not empty: a match is a part
-- of the subject, and the match runs into no error.
pub record MatchesInside (L : Libs) (c : L.Code) : Type 0 where
  pub match_inside :
      (subject : List ℕ) (code start end : ℕ)
      → L.pcre2_match c subject ≡ found code start end
      → (start < end) × (end ≤ length subject)
  pub match_sound : (subject : List ℕ) (start end : ℕ) → L.pcre2_match c subject ≢ failed start end
