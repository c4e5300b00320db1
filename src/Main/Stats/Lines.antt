-- ===== src/Main/Stats/Lines.antt =====
-- The lines of `log_endpoint_stats` (muditm.c) and the space that they take.
use mudit_m.Base.{
  ℕ, suc, ◌+◌, ◌-◌, ◌≤◌, ◌<◌, ◌≡◌, ◌≢◌, refl, sym, ap, ◌∙◌, false, List, [], ◌∷◌, ◌++◌, length,
  length-append, take, take_all, drop, length-drop, store, ltb, ◌==◌, arith, le→ltb_false,
}
use mathlib.Core.List.{append_assoc, append-nil}
use mudit_m.Run.{Run, ok}
use mudit_m.Iostats.Print.{Double, Printer, snprintf_at, print_all}
use mudit_m.Handlers.Patterns.{c_string}
use mudit_m.Main.Stats.{line_of}

-- A text with no NUL byte.
abbrev pub IsWhole : List ℕ → Type 0
IsWhole [] = Unit
IsWhole (b ∷ text) = (b ≢ 0) × IsWhole text

IsWhole-append : (xs ys : List ℕ) → IsWhole xs → IsWhole ys → IsWhole (xs ++ ys)
IsWhole-append [] ys h k = k
IsWhole-append (x ∷ xs) ys h k = (h.0, IsWhole-append xs ys h.1 k)

c_string-whole : (text rest : List ℕ) → IsWhole text → c_string (text ++ (0 ∷ rest)) ≡ text
c_string-whole [] rest h = refl
c_string-whole (b ∷ text) rest h =
    rw (not_nul b h.0) (ap (λ t. b ∷ t) (c_string-whole text rest h.1))
  where
    not_nul : (b : ℕ) → b ≢ 0 → (b == 0) ≡ false
    not_nul b k = ground arith

store_behind :
    (before after bytes : List ℕ)
    → store (before ++ after) (length before) bytes ≡ before ++ store after 0 bytes
store_behind [] after bytes = refl
store_behind (b ∷ before) after [] = ap (λ t. b ∷ t) (store_behind before after [])
store_behind (b ∷ before) after (c ∷ bytes) =
    ap (λ t. b ∷ t) (store_behind before after (c ∷ bytes))

-- A text and its NUL at the head of a block.
stored :
    (text after : List ℕ)
    → length text < length after
    → store after 0 (text ++ (0 ∷ [])) ≡ text ++ (0 ∷ drop (suc (length text)) after)
stored [] [] h = absurd (omega arith)
stored [] (a ∷ after) h = refl
stored (c ∷ text) [] h = absurd (omega arith)
stored (c ∷ text) (a ∷ after) h = ap (λ t. c ∷ t) (stored text after (omega arith))

-- All of the texts.
abbrev pub joined : List (List ℕ) → List ℕ
joined [] = []
joined (text ∷ texts) = text ++ joined texts

-- What was printed, with its NUL, and what is left of the block behind it.
record Holds (text after : List ℕ) (p : Printer) : Type 0 where
  pub holds : p.block ≡ text ++ (0 ∷ after)
  pub reached : p.at ≡ length text

space_left : (room : ℕ) → 0 < room → (room == 0) ≡ false
space_left room h = ground arith

print_one :
    (text before after : List ℕ) (p : Printer)
    → p.block ≡ before ++ after
    → p.at ≡ length before
    → length text < length after
    → (p' : Printer) × (snprintf_at text p ≡ ok p')
      × Holds (before ++ text) (drop (suc (length text)) after) p'
unfolding snprintf_at
print_one text before after p e a h =
    let room = length p.block - p.at in
    let space : room ≡ length after =
      omega (arith, a, ap (λ (t : List ℕ). length t) e, length-append before after) in
    let inside : ltb (length p.block) p.at ≡ false =
      le→ltb_false (length p.block) p.at
        (omega (arith, a, ap (λ (t : List ℕ). length t) e, length-append before after)) in
    let whole = take_all (room - 1) text (omega (arith, space, h)) in
    (
      record {
        block = store p.block p.at (take (room - 1) text ++ (0 ∷ []));
        at = p.at + length text;
      },
      rw (inside, space_left room (omega (arith, space, h))) refl,
      record {
        holds =
            ap (λ t. store p.block p.at (t ++ (0 ∷ []))) whole
            ∙ ap (λ b. store b p.at (text ++ (0 ∷ []))) e
            ∙ ap (λ n. store (before ++ after) n (text ++ (0 ∷ []))) a
            ∙ store_behind before after (text ++ (0 ∷ []))
            ∙ ap (λ t. before ++ t) (stored text after h)
            ∙ sym (append_assoc before text _);
        reached = omega (arith, a, length-append before text);
      },
    )

print_more :
    (texts : List (List ℕ)) (before after : List ℕ) (p : Printer)
    → Holds before after p
    → length (joined texts) ≤ length after
    → (p' : Printer) × (after' : List ℕ) × (print_all texts p ≡ ok p')
      × Holds (before ++ joined texts) after' p'
      × (length after' + length (joined texts) ≡ length after)
unfolding print_all
print_more [] before after p h room = (
  p,
  after,
  refl,
  record {
    holds = h.holds ∙ ap (λ t. t ++ (0 ∷ after)) (sym (append-nil before));
    reached = h.reached ∙ ap (λ (t : List ℕ). length t) (sym (append-nil before));
  },
  omega arith,
)
print_more (text ∷ texts) before after p h room =
    let (p1, e1, h1) =
      print_one text before (0 ∷ after) p h.holds h.reached
        (omega (arith, room, length-append text (joined texts))) in
    let (p2, after2, e2, h2, l2) =
      print_more texts (before ++ text) (drop (length text) after) p1 h1
        (omega (arith, room, length-append text (joined texts), length-drop (length text) after)) in
    (
      p2,
      after2,
      rw (e1) e2,
      record {
        holds = h2.holds ∙ ap (λ t. t ++ (0 ∷ after2)) (append_assoc before text (joined texts));
        reached =
            h2.reached ∙ ap (λ (t : List ℕ). length t) (append_assoc before text (joined texts));
      },
      omega (arith, l2, room, length-append text (joined texts), length-drop (length text) after),
    )

-- The line that some texts make, if they fit.
pub record Made (buf : List ℕ) (texts : List (List ℕ)) (m : Run (List ℕ × List ℕ)) : Type 0 where
  pub buf' : List ℕ
  pub made : m ≡ ok (joined texts, buf')
  pub same_length : length buf' ≡ length buf

pub line_of_lem :
    (buf text : List ℕ) (texts : List (List ℕ))
    → IsWhole (joined (text ∷ texts))
    → length (joined (text ∷ texts)) < length buf
    → Made buf (text ∷ texts) (line_of buf (text ∷ texts))
unfolding line_of print_all
line_of_lem buf text texts whole room =
    let (p1, e1, h1) =
      print_one text [] buf (record { block = buf; at = 0 }) refl refl
        (omega (arith, room, length-append text (joined texts))) in
    let (p2, after2, e2, h2, l2) = print_more texts text (drop (suc (length text)) buf) p1 h1 (
      omega
        (arith, room, length-append text (joined texts), length-drop (suc (length text)) buf)) in
    record {
      buf' = p2.block;
      made =
          rw (e1, e2)
            (ap (λ (t : List ℕ). ok (t, p2.block))
              (ap c_string h2.holds ∙ c_string-whole (text ++ joined texts) after2 whole));
      same_length = omega (
        arith,
        ap (λ (t : List ℕ). length t) h2.holds,
        length-append (text ++ joined texts) (0 ∷ after2),
        l2,
        room,
        length-append text (joined texts),
        length-drop (suc (length text)) buf,
      );
    }

-- A text that has no NUL and is not long.
pub record IsShort (n : ℕ) (text : List ℕ) : Type 0 where
  pub whole : IsWhole text
  pub short : length text ≤ n

pub IsShort-append :
    (n m : ℕ) (xs ys : List ℕ) → IsShort n xs → IsShort m ys → IsShort (n + m) (xs ++ ys)
IsShort-append n m xs ys h k = record {
  whole = IsWhole-append xs ys h.whole k.whole;
  short = omega (arith, h.short, k.short, length-append xs ys);
}

pub IsShort-weaken : (n m : ℕ) (xs : List ℕ) → n ≤ m → IsShort n xs → IsShort m xs
IsShort-weaken n m xs h k = record { whole = k.whole; short = omega (arith, h, k.short) }

-- A number is printed in at most 400 bytes: a `double` has at most 309 digits before its point.
pub record PrintsShort (D : Double) : Type 0 where
  pub short : (digits : ℕ) (w : D.W) → digits ≤ 2 → IsShort 400 (D.print digits w)
