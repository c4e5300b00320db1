-- ===== src/Handlers/Patterns/Text.antt =====
-- The text that `compile_patterns` (handlers.c) gives to PCRE2.
use mudit_m.Base.{
  ℕ, ◌+◌, ◌-◌, ◌<◌, ◌≡◌, refl, ap, ◌∙◌, false, Option, List, [], ◌∷◌, ◌++◌, arith, length, take_all,
  length-append, le→leb, ◌==◌, if◌then◌else◌,
}
use mathlib.Core.List.{append_assoc, append-nil}
use mudit_m.Run.{ok}
use mudit_m.Endpoint.{Pattern, PatternAction}
use mudit_m.Handlers.Patterns.{c_string, print_text, print_patterns, buf_size}

-- A pattern as a group of its own.
abbrev pub group : Pattern → List ℕ
group p = b'(' ∷ (c_string p.pat ++ (b')' ∷ []))

-- The alternatives behind the first.
abbrev further : List Pattern → List ℕ
further [] = []
further (p ∷ rest) = (b'|' ∷ group p) ++ further rest

-- The alternation of the patterns' groups.
abbrev pub alternation : List Pattern → List ℕ
alternation [] = []
alternation (p ∷ rest) = group p ++ further rest

print_text_fits :
    (buf text : List ℕ)
    → length buf + length text < buf_size
    → print_text (buf, length buf) text ≡ ok (buf ++ text, length (buf ++ text))
unfolding print_text
print_text_fits buf text h =
    rw
      (
        le→leb (length buf) buf_size (omega arith),
        take_all (buf_size - length buf - 1) text (omega arith),
        ← length-append buf text,
      )
      refl

pos_==_zero : (n : ℕ) → 0 < n → (n == 0) ≡ false
pos_==_zero n h = ground arith

regroup :
    (buf text more : List ℕ)
    → ((buf ++ (b'|' ∷ [])) ++ text) ++ more ≡ buf ++ (b'|' ∷ (text ++ more))
regroup buf text more =
    append_assoc (buf ++ (b'|' ∷ [])) text more ∙ append_assoc buf (b'|' ∷ []) (text ++ more)

c_string_cuts : (before after : List ℕ) → c_string (before ++ (0 ∷ after)) ≡ c_string before
c_string_cuts [] after = refl
c_string_cuts (b ∷ before) after =
    ap (λ t. if b == 0 then [] else b ∷ t) (c_string_cuts before after)

print_further :
    (patterns : List Pattern) (buf : List ℕ)
    → 0 < length buf
    → length buf + length (further patterns) < buf_size
    → print_patterns patterns (buf, length buf)
      ≡ ok (buf ++ further patterns, length (buf ++ further patterns))
unfolding print_patterns
print_further [] buf some_text h = rw (append-nil buf) refl
print_further (p ∷ rest) buf some_text h =
    let buf1 = buf ++ (b'|' ∷ []) in
    let buf2 = buf1 ++ group p in
    let l1 = length-append buf (b'|' ∷ []) in
    let l2 = length-append buf1 (group p) in
    let l3 = length-append (group p) (further rest) in
    rw
      (
        pos_==_zero (length buf) some_text,
        print_text_fits buf (b'|' ∷ []) (omega (arith, h, l3)),
        print_text_fits buf1 (group p) (omega (arith, h, l1, l3)),
      )
      (print_further rest buf2 (omega (arith, l1, l2)) (omega (arith, h, l1, l2, l3))
        ∙ ap (λ t. ok (t, length t)) (regroup buf (group p) (further rest)))

-- The text of a list of patterns is the alternation of one group for each pattern, in the order
-- of the list, if that is shorter than the 65536 bytes of the buffer; its length is the offset
-- that is returned.
pub print_patterns-alternation :
    (patterns : List Pattern)
    → length (alternation patterns) < buf_size
    → print_patterns patterns ([], 0) ≡ ok (alternation patterns, length (alternation patterns))
unfolding print_patterns
print_patterns-alternation [] h = refl
print_patterns-alternation (p ∷ rest) h =
    let l = length-append (group p) (further rest) in
    rw (print_text_fits [] (group p) (omega (arith, h, l)))
      (print_further rest (group p) (omega arith) (omega (arith, h, l)))

-- What follows a NUL byte in the first pattern of a list has no part in the text: two lists that
-- differ only there print the same.
pub print_patterns_cuts :
    (before after after' : List ℕ) (action : Option PatternAction) (rest : List Pattern)
    → print_patterns (record { pat = before ++ (0 ∷ after); action = action } ∷ rest) ([], 0)
      ≡ print_patterns (record { pat = before ++ (0 ∷ after'); action = action } ∷ rest) ([], 0)
unfolding print_patterns
print_patterns_cuts before after after' action rest =
    rw (c_string_cuts before after, c_string_cuts before after') refl
