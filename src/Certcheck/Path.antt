-- ===== src/Certcheck/Path.antt =====
-- `cert_throttle_path` of certcheck.c: where the throttle file stands.
use mudit_m.Base.{
  ℕ, ◌+◌, ◌-◌, ◌<◌, ◌≡◌, ◌≢◌, refl, false, Option, none, some, List, [], ◌∷◌, ◌++◌, length,
  length-append, take, take_all, codes, ltb, ◌==◌, if◌then◌else◌, arith, lt→ltb,
}

abbrev pub throttle_name : List ℕ
throttle_name = codes ".cert-expiry-warned"

-- Up to the slash that `strrchr` finds, with it.
abbrev pub upto_slash : List ℕ → Option (List ℕ)
upto_slash [] = none
upto_slash (c ∷ text) = elim (upto_slash text) [
  | some directory ↦ some (c ∷ directory)
  | none ↦ if c == b'/' then some (c ∷ []) else none
]

-- The text that is in `out`, which has `size` bytes.
unfoldable pub cert_throttle_path : (cert_file : List ℕ) (size : ℕ) → List ℕ
cert_throttle_path cert_file size =
    let out = take (size - 1) cert_file in
    elim (upto_slash out) [
      | none ↦ take (size - 1) throttle_name
      | some directory ↦
          if ltb (length directory) size
          then directory ++ take (size - length directory - 1) throttle_name
          else out
    ]

-- No slash in a file's name.
abbrev pub IsName : List ℕ → Type 0
IsName [] = Unit
IsName (c ∷ text) = (c ≢ b'/') × IsName text

upto_slash-name : (file : List ℕ) → IsName file → upto_slash file ≡ none
upto_slash-name [] h = refl
upto_slash-name (c ∷ file) h = rw (upto_slash-name file h.1, no_slash c h.0) refl
  where
    no_slash : (c : ℕ) → c ≢ b'/' → (c == b'/') ≡ false
    no_slash c k = ground arith

upto_slash-directory :
    (directory file : List ℕ)
    → IsName file
    → upto_slash (directory ++ (b'/' ∷ file)) ≡ some (directory ++ (b'/' ∷ []))
upto_slash-directory [] file h = rw (upto_slash-name file h) refl
upto_slash-directory (c ∷ directory) file h = rw (upto_slash-directory directory file h) refl

-- For a certificate in a directory, with a path that fits the buffer and a directory that leaves
-- space for the name: the throttle file stands in the certificate's directory under its fixed
-- name.
pub cert_throttle_path_lem :
    (directory file : List ℕ) (size : ℕ)
    → IsName file
    → length directory + length file + 1 < size
    → length directory + 20 < size
    → cert_throttle_path (directory ++ (b'/' ∷ file)) size
      ≡ (directory ++ (b'/' ∷ [])) ++ throttle_name
unfolding cert_throttle_path
cert_throttle_path_lem directory file size h fits room =
    let n = length-append directory (b'/' ∷ []) in
    rw
      (
        cert_throttle_path,
        take_all (size - 1) (directory ++ (b'/' ∷ file))
            (omega (arith, fits, length-append directory (b'/' ∷ file))),
        upto_slash-directory directory file h,
        lt→ltb (length (directory ++ (b'/' ∷ []))) size (omega (arith, n, room)),
        take_all (size - length (directory ++ (b'/' ∷ [])) - 1) throttle_name
            (omega (arith, n, room)),
      )
      refl
