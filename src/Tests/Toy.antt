-- ===== src/Tests/Toy.antt =====
-- A library with every promise that the program relies on: "compression" copies, no new output
-- stream can be had, and an expression is a list of literal texts.
use mudit_m.Base.{
  ℕ, zero, suc, take_all, ◌+◌, ◌≤◌, ◌<◌, ◌≡◌, refl, sym, ◌∙◌, ap, true, Option, none, some, List,
  [], ◌∷◌, ◌++◌, length, take, arith, length-take, length-drop, ◌==◌, if◌then◌else◌, Bool-cases,
  inl, inr,
}
use mathlib.Core.Path.{subst}
use mudit_m.Posix.{Errno, eagain}
use mudit_m.Libs.{
  Libs, DeflateLaws, InflateLaws, MatchesInside, Inflated, inflated, problem, MatchResult, nomatch,
  partial, found, failed,
}
use mudit_m.Endpoint.Io.{starts}
use mudit_m.Endpoint.Codec.{DeflateCodes}
use mudit_m.Endpoint.Decodes.{InflateCodes}
use mathlib.Core.List.{append-nil}

-- The alternatives of a text of groups.
abbrev groups_from : List ℕ → List ℕ → List (List ℕ)
groups_from [] acc = []
groups_from (c ∷ text) acc =
    if c == 40
    then groups_from text []
    else if c == 41
    then acc ∷ groups_from text []
    else groups_from text (acc ++ (c ∷ []))

abbrev pub groups : List ℕ → List (List ℕ)
groups text = groups_from text []

abbrev pub literal_at : List (List ℕ) → ℕ → ℕ → List ℕ → MatchResult → MatchResult
literal_at [] code at subject otherwise = otherwise
literal_at ([] ∷ rest) code at subject otherwise = literal_at rest (suc code) at subject otherwise
literal_at ((b ∷ bytes) ∷ rest) code at subject otherwise =
    if starts (b ∷ bytes) subject
    then found code at (at + length (b ∷ bytes))
    else literal_at rest (suc code) at subject otherwise

abbrev pub find : List (List ℕ) → ℕ → List ℕ → MatchResult
find literals at [] = nomatch
find literals at (c ∷ subject) =
    literal_at literals 2 at (c ∷ subject) (find literals (suc at) subject)

abbrev Stream : Type 0
Stream = Unit

abbrev deflated : List ℕ → Option (Stream × ℕ × List ℕ)
deflated [] = none
deflated (b ∷ bytes) = some (tt, suc (length bytes), b ∷ bytes)

abbrev reinflated : List ℕ → Inflated Stream
reinflated [] = problem tt 0 [] eagain
reinflated (b ∷ bytes) = inflated tt (suc (length bytes)) (b ∷ bytes)

abbrev pub toy : Libs
toy = record {
  Deflater = Stream;
  Inflater = Stream;
  deflate_init = none;
  inflate_init = some tt;
  deflate = λ d input space. deflated (take space input);
  inflate = λ z input space. reinflated (take space input);
  deflate_debt = λ d input. length input;
  Code = List (List ℕ);
  pcre2_compile = λ text. some (groups text);
  pcre2_match = λ literals subject. find literals 0 subject;
}

used_of : Option (Stream × ℕ × List ℕ) → ℕ
used_of none = 0
used_of (some r) = r.1

output_of : Option (Stream × ℕ × List ℕ) → List ℕ
output_of none = []
output_of (some r) = r.2

consumed_of : Inflated Stream → ℕ
consumed_of (problem z used output e) = used
consumed_of (inflated z used output) = used

inflated_of : Inflated Stream → List ℕ
inflated_of (problem z used output e) = output
inflated_of (inflated z used output) = output

copies :
    (input output taken : List ℕ) (space used : ℕ) (d : Stream)
    → take space input ≡ taken
    → deflated taken ≡ some (d, used, output)
    → (length output ≤ space) × (used ≤ length input) × (0 < length output) × (used ≡ length output)
unfolding used_of output_of
copies input output [] space used d t e = absurd (cc)
copies input output (b ∷ bytes) space used d t e =
    let u = ap used_of e in
    let o = ap (λ r. length (output_of r)) e in
    let l = ap (λ (xs : List ℕ). length xs) t in omega (arith, u, o, l, length-take space input)

inflates_copies :
    (input output taken : List ℕ) (space used : ℕ) (d : Stream)
    → take space input ≡ taken
    → reinflated taken ≡ inflated d used output
    → (length output ≤ space) × (used ≤ length input) × (0 < used + length output)
unfolding consumed_of inflated_of
inflates_copies input output [] space used d t e = absurd (cc)
inflates_copies input output (b ∷ bytes) space used d t e =
    let u = ap consumed_of e in
    let o = ap (λ r. length (inflated_of r)) e in
    let l = ap (λ (xs : List ℕ). length xs) t in omega (arith, u, o, l, length-take space input)

abbrev Inside : ℕ → MatchResult → Type 0
Inside n nomatch = Unit
Inside n partial = Unit
Inside n (found code start end) = (start < end) × (end ≤ n)
Inside n (failed start end) = ⊥

starts-length : (p t : List ℕ) → starts p t ≡ true → length p ≤ length t
starts-length [] t e = omega arith
starts-length (b ∷ p) [] e = absurd (cc)
starts-length (b ∷ p) (c ∷ t) e = elim (Bool-cases (b == c)) [
  | inl same ↦ omega (arith, starts-length p t (rw same at e))
  | inr other ↦ absurd (let q = rw other at e in cc)
]

literal_at-Inside :
    (literals : List (List ℕ)) (code at n : ℕ) (subject : List ℕ) (otherwise : MatchResult)
    → at + length subject ≤ n
    → Inside n otherwise
    → Inside n (literal_at literals code at subject otherwise)
literal_at-Inside [] code at n subject o h k = k
literal_at-Inside ([] ∷ rest) code at n subject o h k =
    literal_at-Inside rest (suc code) at n subject o h k
literal_at-Inside ((b ∷ bytes) ∷ rest) code at n subject o h k =
    elim (Bool-cases (starts (b ∷ bytes) subject)) [
      | inl hit ↦ rw hit (omega arith, omega (arith, h, starts-length (b ∷ bytes) subject hit))
      | inr miss ↦ rw miss (literal_at-Inside rest (suc code) at n subject o h k)
    ]

find-Inside :
    (literals : List (List ℕ)) (at n : ℕ) (subject : List ℕ)
    → at + length subject ≤ n
    → Inside n (find literals at subject)
find-Inside literals at n [] h = tt
find-Inside literals at n (c ∷ subject) h =
    literal_at-Inside literals 2 at n (c ∷ subject) _ h
      (find-Inside literals (suc at) n subject (omega (arith, h)))

pub toy_deflates : DeflateLaws toy
toy_deflates = record {
  deflate_pays = λ d e input output space used h.
      let c = copies input output (take space input) space used e refl h in
      (c.0, omega (arith, c.1, c.3, length-drop used input), c.2);
}

pub toy_inflates : InflateLaws toy
toy_inflates = record {
  inflate_moves = λ z z' input output space used h.
      inflates_copies input output (take space input) space used z' refl h;
}

pub toy_inside : (code : List (List ℕ)) → MatchesInside toy code
toy_inside code = record {
  match_inside = λ subject c start end e.
      subst (Inside (length subject)) e (find-Inside code 0 (length subject) subject (omega arith));
  match_sound = λ subject start end e.
      subst (Inside (length subject)) e (find-Inside code 0 (length subject) subject (omega arith));
}

first_bytes :
    (input output taken : List ℕ) (space used : ℕ) (d : Stream)
    → take space input ≡ taken
    → deflated taken ≡ some (d, used, output)
    → output ≡ take space input
unfolding output_of
first_bytes input output [] space used d t e = absurd (cc)
first_bytes input output (b ∷ bytes) space used d t e = sym (ap output_of e) ∙ sym t

take-length_taken : (n : ℕ) (xs : List ℕ) → take n xs ≡ take (length (take n xs)) xs
take-length_taken zero xs = refl
take-length_taken (suc n) [] = refl
take-length_taken (suc n) (x ∷ xs) = ap (λ t. x ∷ t) (take-length_taken n xs)

counted_bytes :
    (input output : List ℕ) (space used : ℕ) (d : Stream)
    → deflated (take space input) ≡ some (d, used, output)
    → output ≡ take used input
counted_bytes input output space used d e =
    let o = first_bytes input output (take space input) space used d refl e in
    let u = (copies input output (take space input) space used d refl e).3 in
    let l = ap (λ (xs : List ℕ). length xs) o in
    let k : length (take space input) ≡ used = omega (arith, u, l) in
    o ∙ take-length_taken space input ∙ ap (λ n. take n input) k

-- The stream puts out what it is given.
pub toy_codes : DeflateCodes toy
toy_codes = record {
  decompress = λ bytes. bytes;
  Coded = λ d given made. given ≡ made;
  deflate_begins = λ z e. refl;
  deflate_moves = λ z z' given made input output space used c e.
      ap (λ t. t ++ take used input) c
      ∙ ap (λ t. made ++ t) (sym (counted_bytes input output space used z' e));
  deflate_flushes = λ z z' given made input output space used c e room.
      let k = copies input output (take space input) space used z' refl e in
      let o = first_bytes input output (take space input) space used z' refl e in
      let l = ap (λ (xs : List ℕ). length xs) o in
      let all : used ≡ length input = omega (arith, k, l, room, length-take space input) in
      (
        all,
        ap (λ t. t ++ output) (sym c)
            ∙ ap (λ t. given ++ t)
                (counted_bytes input output space used z' e
                  ∙ take_all used input (omega (arith, all))),
      );
}

pub toy_began : toy_codes.Coded tt [] []
unfolding toy_codes
toy_began = refl

counted_input :
    (bytes output taken : List ℕ) (space used : ℕ) (z : Stream)
    → take space bytes ≡ taken
    → reinflated taken ≡ inflated z used output
    → output ≡ take used bytes
unfolding consumed_of inflated_of
counted_input bytes output [] space used z t e = absurd (cc)
counted_input bytes output (b ∷ taken) space used z t e =
    let u : suc (length taken) ≡ used = ap consumed_of e in
    let l = ap (λ (xs : List ℕ). length xs) t in
    sym (ap inflated_of e)
    ∙ sym t
    ∙ take-length_taken space bytes
    ∙ ap (λ n. take n bytes) (omega (arith, u, l))

failed_input :
    (bytes output taken : List ℕ) (used : ℕ) (z : Stream) (errno : Errno)
    → reinflated taken ≡ problem z used output errno
    → output ≡ take used bytes
unfolding consumed_of inflated_of
failed_input bytes output [] used z errno e =
    let u : 0 ≡ used = ap consumed_of e in sym (ap inflated_of e) ∙ ap (λ n. take n bytes) u
failed_input bytes output (b ∷ taken) used z errno e = absurd (cc)

-- The stream puts out what it consumes.
pub toy_decodes : InflateCodes toy
toy_decodes = record {
  decompress = λ bytes. bytes;
  Decoding = λ z consumed produced. consumed ≡ produced;
  inflate_begins = λ z e. refl;
  inflate_moves = λ z z' consumed produced bytes output space used c e.
      ap (λ t. t ++ take used bytes) c
      ∙ ap (λ t. produced ++ t)
          (sym (counted_input bytes output (take space bytes) space used z' refl e));
  inflate_fails = λ z z' consumed produced bytes output space used errno c e.
      ap (λ t. t ++ take used bytes) c
      ∙ ap (λ t. produced ++ t)
          (sym (failed_input bytes output (take space bytes) used z' errno e));
  inflate_decodes = λ z consumed produced c. ([], c ∙ sym (append-nil produced));
}

pub toy_decoding : toy_decodes.Decoding tt [] []
unfolding toy_decodes
toy_decoding = refl
