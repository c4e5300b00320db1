-- ===== src/Tests/Piping.antt =====
-- The theorems on what arrives at a peer (proxy.c, mccp.c), applied.
use mudit_m.Base.{
  ℕ, All, zero, suc, ◌+◌, ◌-◌, ◌≡◌, ◌≢◌, refl, sym, ap, ◌∙◌, Bool, true, false, none, some, List,
  [], ◌∷◌, ◌++◌, length, get_elem?, arith, codes, take, drop, drop-drop, if◌then◌else◌, ◌==◌,
  Bool-cases, inl, inr,
}
use mathlib.Core.Path.{subst}
use mudit_m.Posix.{ReadEvent, arrived, hangup}
use mudit_m.Libs.{MatchResult, nomatch, partial, found, failed}
use mudit_m.Conf.{get_conf_boolean}
use mudit_m.Telnet.{iac}
use mudit_m.Run.{Returns}
use mudit_m.Endpoint.{Endpoint, Pattern, mccp_disable, mccp_enable}
use mudit_m.Endpoint.Arrivals.{to_come}
use mudit_m.Endpoint.Stream.{write_endpoint_compressed}
use mudit_m.Endpoint.Codec.{DeliveredOr, write_endpoint_compressed-Delivers}
use mudit_m.Endpoint.Decodes.Reading.{DecodedBy, read_endpoint-Decodes}
use mudit_m.Endpoint.Io.{read_endpoint, starts}
use mudit_m.Handlers.Patterns.{compile_patterns, print_patterns, print_text, c_string}
use mudit_m.Proxy.Session.{muditm_proxy}
use mudit_m.Proxy.Start.{Compiles, game_list, client_list}
use mudit_m.Proxy.Plain.{MatchesTexts, IsText}
use mudit_m.Proxy.Flows.{FlowedBy}
use mudit_m.Proxy.Plain.Relay.{IsTexting, met, muditm_proxy-Flowed}
use mudit_m.Tests.Toy.{
  toy, toy_codes, toy_began, toy_decodes, toy_decoding, toy_inflates, toy_deflates, toy_inside,
  find, literal_at,
}
use mudit_m.Tests.Sides.{side, switched, epoch, buffer-IsValid}
use mudit_m.Tests.Proxying.{rounds}

starts-take : (p t : List ℕ) → starts p t ≡ true → take (length p) t ≡ p
starts-take [] t e = refl
starts-take (b ∷ p) [] e = absurd (cc)
starts-take (b ∷ p) (c ∷ t) e = elim (Bool-cases (b == c)) [
  | inl same ↦
      ap (λ x. c ∷ x) (starts-take p t (rw same at e)) ∙ ap (λ x. x ∷ p) (ground (arith, same))
  | inr other ↦ absurd (let q = rw other at e in cc)
]

-- A match is the text of its code.
abbrev Spelled : List (List ℕ) → List ℕ → MatchResult → Type 0
Spelled texts whole nomatch = Unit
Spelled texts whole partial = ⊥
Spelled texts whole (found code start end) =
    get_elem? texts (code - 2) ≡ some (take (end - start) (drop start whole))
Spelled texts whole (failed start end) = Unit

get_elem?-drop {ℓ} : {A : Type ℓ} (n : ℕ) (xs : List A) → get_elem? (drop n xs) 0 ≡ get_elem? xs n
get_elem?-drop zero xs = refl
get_elem?-drop (suc n) [] = refl
get_elem?-drop (suc n) (x ∷ xs) = get_elem?-drop n xs

spelled :
    (b : ℕ) (bytes : List ℕ) (at : ℕ) (whole subject : List ℕ)
    → drop at whole ≡ subject
    → starts (b ∷ bytes) subject ≡ true
    → take (at + suc (length bytes) - at) (drop at whole) ≡ b ∷ bytes
spelled b bytes at whole subject dw hit =
    let n : at + suc (length bytes) - at ≡ suc (length bytes) = omega arith in
    rw (n, dw) (starts-take (b ∷ bytes) subject hit)

next :
    (at c : ℕ) (whole subject : List ℕ)
    → drop at whole ≡ c ∷ subject
    → drop (suc at) whole ≡ subject
next at c whole subject dw =
    let n : suc at ≡ at + 1 = omega arith in rw n (sym (drop-drop at 1 whole) ∙ ap (drop 1) dw)

place : (k : ℕ) → k + 2 - 2 ≡ k
place k = omega arith

literal_at-Spelled :
    (texts literals : List (List ℕ)) (k at : ℕ) (whole subject : List ℕ) (otherwise : MatchResult)
    → drop k texts ≡ literals
    → drop at whole ≡ subject
    → Spelled texts whole otherwise
    → Spelled texts whole (literal_at literals (k + 2) at subject otherwise)
literal_at-Spelled texts [] k at whole subject o dt dw s = s
literal_at-Spelled texts ([] ∷ rest) k at whole subject o dt dw s =
    subst (λ c. Spelled texts whole (literal_at rest c at subject o)) (omega arith)
      (literal_at-Spelled texts rest (k + 1) at whole subject o
        (sym (drop-drop k 1 texts) ∙ ap (drop 1) dt) dw s)
literal_at-Spelled texts ((b ∷ bytes) ∷ rest) k at whole subject o dt dw s =
    elim (Bool-cases (starts (b ∷ bytes) subject)) [
      | inl hit ↦ rw hit (
          ap (λ i. get_elem? texts i) (place k)
          ∙ sym (get_elem?-drop k texts)
          ∙ ap (λ xs. get_elem? xs 0) dt
          ∙ ap some (sym (spelled b bytes at whole subject dw hit)))
      | inr miss ↦ rw miss (
          subst (λ c. Spelled texts whole (literal_at rest c at subject o)) (omega arith)
            (literal_at-Spelled texts rest (k + 1) at whole subject o
              (sym (drop-drop k 1 texts) ∙ ap (drop 1) dt) dw s))
    ]

find-Spelled :
    (texts : List (List ℕ)) (at : ℕ) (whole subject : List ℕ)
    → drop at whole ≡ subject
    → Spelled texts whole (find texts at subject)
find-Spelled texts at whole [] dw = tt
find-Spelled texts at whole (c ∷ subject) dw =
    literal_at-Spelled texts texts 0 at whole (c ∷ subject) _ refl dw
      (find-Spelled texts (suc at) whole subject (next at c whole subject dw))

abbrev texts_of : List Pattern → List (List ℕ)
texts_of [] = []
texts_of (p ∷ patterns) = c_string p.pat ∷ texts_of patterns

same_text : (p q : Pattern) → some q ≡ some p → some (c_string q.pat) ≡ some (c_string p.pat)
same_text p q e = let k : q ≡ p = cc in ap (λ (x : Pattern). some (c_string x.pat)) k

get_elem?-texts :
    (patterns : List Pattern) (i : ℕ) (p : Pattern)
    → get_elem? patterns i ≡ some p
    → get_elem? (texts_of patterns) i ≡ some (c_string p.pat)
get_elem?-texts [] i p e = absurd (cc)
get_elem?-texts (q ∷ patterns) zero p e = same_text p q e
get_elem?-texts (q ∷ patterns) (suc i) p e = get_elem?-texts patterns i p e

toy_texts : (patterns : List Pattern) → MatchesTexts toy (texts_of patterns) patterns
toy_texts patterns = record {
  match_text = λ subject code start end p e at. some_text _ _ (
      sym (
        subst (Spelled (texts_of patterns) subject) e
          (find-Spelled (texts_of patterns) 0 subject subject refl))
      ∙ get_elem?-texts patterns (code - 2) p at);
  match_part = λ subject e. absurd (
      subst (Spelled (texts_of patterns) subject) e
        (find-Spelled (texts_of patterns) 0 subject subject refl));
}
  where
    some_text : (a b : List ℕ) → some a ≡ some b → a ≡ b
    some_text a b k = cc

-- A side with no patterns of its own.
abbrev texting : List ReadEvent → Endpoint toy
texting events = record (side [] events) { patterns = []; re = none }

abbrev player : Endpoint toy
player = texting (arrived (codes "look") ∷ arrived (codes "say hi") ∷ hangup ∷ [])

abbrev world : Endpoint toy
world = texting (arrived (codes "a room") ∷ [])

player_compiles : Compiles toy (client_list toy player)
unfolding compile_patterns print_patterns print_text
player_compiles = record {
  code = texts_of (client_list toy player);
  compiled = refl;
  inside = toy_inside (texts_of (client_list toy player));
}

world_compiles : Compiles toy (game_list toy world)
unfolding compile_patterns print_patterns print_text
world_compiles = record {
  code = texts_of (game_list toy world);
  compiled = refl;
  inside = toy_inside (texts_of (game_list toy world));
}

abbrev has_no_iac : List ℕ → Bool
has_no_iac [] = true
has_no_iac (b ∷ bytes) = if b == iac then false else has_no_iac bytes

IsText-All : (bytes : List ℕ) → has_no_iac bytes ≡ true → All IsText bytes
IsText-All [] e = tt
IsText-All (b ∷ bytes) e = elim (Bool-cases (b == iac)) [
  | inl same ↦ absurd (let q = rw same at e in cc)
  | inr other ↦ (λ k. ground (arith, other, k), IsText-All bytes (rw other at e))
]

texting-IsTexting :
    (events : List ReadEvent) → has_no_iac (to_come events) ≡ true → IsTexting toy (texting events)
texting-IsTexting events h = record {
  text = IsText-All (to_come events) h;
  commands = tt;
  valid = buffer-IsValid [] (omega arith);
  plain_in = refl;
  live = tt;
  clear = record { plain = refl; open_wire = refl };
  empty = refl;
}

disabled : mccp_disable ≢ mccp_enable
disabled e = absurd (cc)

muditm_proxy-Flowed_example :
    Returns
      (FlowedBy toy IsText (met toy player world))
      (muditm_proxy toy (switched false) epoch (true, true) rounds player world)
unfolding player_compiles world_compiles get_conf_boolean
muditm_proxy-Flowed_example =
    muditm_proxy-Flowed toy (switched false) epoch (true, true) rounds player world player_compiles
      world_compiles (toy_texts (client_list toy player)) (toy_texts (game_list toy world))
      (texting-IsTexting _ refl) (texting-IsTexting _ refl) disabled refl refl

write_endpoint_compressed-Delivers_example :
    Returns
      (DeliveredOr toy toy_codes [] [] (codes "hi") [])
      (write_endpoint_compressed toy (record world { mccp_out = some tt }) (codes "hi"))
write_endpoint_compressed-Delivers_example =
    write_endpoint_compressed-Delivers toy toy_codes toy_deflates
      (record world { mccp_out = some tt }) tt [] [] (codes "hi") refl toy_began refl

-- A game that compresses, of which some bytes wait.
abbrev packing : Endpoint toy
packing = record world { mccp_in = some (record { state = tt; next_in = codes "so" }) }

read_endpoint-Decodes_example :
    Returns
      (DecodedBy toy toy_decodes 8 [] [] (codes "so" ++ codes "a room"))
      (read_endpoint toy packing 8)
read_endpoint-Decodes_example =
    read_endpoint-Decodes toy toy_decodes toy_inflates packing 8
      (record { state = tt; next_in = codes "so" }) [] [] refl toy_decoding tt
