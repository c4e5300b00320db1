-- ===== src/Endpoint/Header/Reading.antt =====
-- A reader of the PROXY line, version 1, and the line that proxy.c prints.
use mudit_m.Base.{
  ℕ, ◌≡◌, ◌≢◌, refl, Bool, true, false, List, [], ◌∷◌, ◌++◌, codes, read_number,
  read_number-decimal, ◌==◌, if◌then◌else◌, drop, arith,
}
use mudit_m.Endpoint.Header.{header_text}

-- A word and what follows the space behind it.
abbrev pub read_word : List ℕ → List ℕ × List ℕ
read_word [] = ([], [])
read_word (c ∷ text) =
    let rest = read_word text in if c == b' ' then ([], text) else (c ∷ rest.0, rest.1)

pub record Line : Type 0 where
  pub family : List ℕ
  pub source : List ℕ
  pub destination : List ℕ
  pub source_port : ℕ
  pub destination_port : ℕ
  pub ending : List ℕ

-- The fields of a line in turn, by the words and numbers between its spaces.
abbrev pub read_line : List ℕ → Line
read_line text =
    let family = read_word (drop 6 text) in
    let source = read_word family.1 in
    let destination = read_word source.1 in
    let sport = read_number 0 destination.1 in
    let dport = read_number 0 (drop 1 sport.1) in
    record {
      family = family.0;
      source = source.0;
      destination = destination.0;
      source_port = sport.0;
      destination_port = dport.0;
      ending = dport.1;
    }

-- No space, which is so of each address that `inet_ntop` prints.
abbrev pub IsWord : List ℕ → Type 0
IsWord [] = Unit
IsWord (c ∷ text) = (c ≢ b' ') × IsWord text

other_than : (a b : ℕ) → a ≢ b → (a == b) ≡ false
other_than a b h = ground arith

read_word-word :
    (word text : List ℕ) → IsWord word → read_word (word ++ (b' ' ∷ text)) ≡ (word, text)
read_word-word [] text h = refl
read_word-word (c ∷ word) text h = rw (other_than c b' ' h.0, read_word-word word text h.1) refl

-- A reader that takes a PROXY line apart at its spaces and reads its numbers digit by digit gets
-- from the printed line what was printed, for two addresses with no space in them and any ports.
pub read_line-header_text :
    (ismapped : Bool) (src dst : List ℕ) (sport dport : ℕ)
    → IsWord src
    → IsWord dst
    → read_line (header_text ismapped src dst sport dport) ≡ record {
      family = if ismapped then codes "TCP4" else codes "TCP6";
      source = src;
      destination = dst;
      source_port = sport;
      destination_port = dport;
      ending = 13 ∷ 10 ∷ [];
    }
unfolding header_text
read_line-header_text true src dst sport dport s d =
    rw
      (
        read_word-word src _ s,
        read_word-word dst _ d,
        read_number-decimal sport _,
        read_number-decimal dport _,
      )
      refl
read_line-header_text false src dst sport dport s d =
    rw
      (
        read_word-word src _ s,
        read_word-word dst _ d,
        read_number-decimal sport _,
        read_number-decimal dport _,
      )
      refl
