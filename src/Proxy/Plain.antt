-- ===== src/Proxy/Plain.antt =====
-- The expressions of `muditm_proxy` (proxy.c) on text without Telnet commands.
pub mod Relay
use mudit_m.Base.{
  ℕ, ◌-◌, ◌≡◌, ◌≢◌, refl, sym, ap, ◌∙◌, some, List, [], ◌∷◌, ◌++◌, length, get_elem?, Bool-cases,
  inl, inr, ltb, take, drop, All, All-take, All-drop,
}
use mathlib.Core.Path.{subst}
use mudit_m.Telnet.{iac}
use mudit_m.Libs.{Libs, found, partial}
use mudit_m.Endpoint.{Pattern, MccpMode, mccp_ignore, mccp_disable, mccp_enable}
use mudit_m.Handlers.Patterns.{mccp_game_patterns, mccp_client_patterns, c_string}
use mudit_m.Proxy.Carries.{Harmless, Complete}

-- pcre2api, of an expression that is an alternation of one group for each literal text: the code of
-- a match is two more than the place of a text that stands at the match. The text of a pattern is
-- what precedes its first NUL.
pub record MatchesTexts (L : Libs) (c : L.Code) (patterns : List Pattern) : Type 0 where
  pub match_text :
      (subject : List ℕ) (code start end : ℕ) (p : Pattern)
      → L.pcre2_match c subject ≡ found code start end
      → get_elem? patterns (code - 2) ≡ some p
      → take (end - start) (drop start subject) ≡ c_string p.pat
  -- A subject that ends inside a match ends with a first part of a text.
  pub match_part :
      (subject : List ℕ)
      → L.pcre2_match c subject ≡ partial
      → (i n : ℕ) × (p : Pattern) × (get_elem? patterns i ≡ some p)
        × (drop n subject ≢ [])
        × (take (length (drop n subject)) (c_string p.pat) ≡ drop n subject)

-- Not the byte that starts a command.
abbrev pub IsText : ℕ → Type 0
IsText b = b ≢ iac

-- Patterns that start with a command.
abbrev IsCommand : List ℕ → Type 0
IsCommand [] = ⊥
IsCommand (b ∷ bytes) = b ≡ iac

abbrev pub AllCommands : List Pattern → Type 0
AllCommands [] = Unit
AllCommands (p ∷ patterns) = IsCommand p.pat × AllCommands patterns

pub AllCommands-append :
    (xs ys : List Pattern) → AllCommands xs → AllCommands ys → AllCommands (xs ++ ys)
AllCommands-append [] ys h k = k
AllCommands-append (x ∷ xs) ys h k = (h.0, AllCommands-append xs ys h.1 k)

pub mccp_game-AllCommands : (mode : MccpMode) → AllCommands (mccp_game_patterns mode)
mccp_game-AllCommands mccp_ignore = (refl, (refl, (refl, tt)))
mccp_game-AllCommands mccp_disable = (refl, (refl, (refl, tt)))
mccp_game-AllCommands mccp_enable = (refl, (refl, tt))

pub mccp_client-AllCommands : (mode : MccpMode) → AllCommands (mccp_client_patterns mode)
mccp_client-AllCommands mccp_ignore = tt
mccp_client-AllCommands mccp_disable = (refl, (refl, (refl, tt)))
mccp_client-AllCommands mccp_enable = (refl, (refl, tt))

printed : (pat : List ℕ) → IsCommand pat → IsCommand (c_string pat)
printed [] c = c
printed (b ∷ pat) c = rw c refl

command_at :
    (patterns : List Pattern) (i : ℕ) (p : Pattern)
    → AllCommands patterns
    → get_elem? patterns i ≡ some p
    → IsCommand (c_string p.pat)
command_at [] i p h e = absurd (cc)
command_at (q ∷ patterns) ℕ.zero p h e =
    subst (λ (x : Pattern). IsCommand (c_string x.pat)) (some_inj q p e) (printed q.pat h.0)
  where
    some_inj : (a b : Pattern) → some a ≡ some b → a ≡ b
    some_inj a b k = cc
command_at (q ∷ patterns) (ℕ.suc i) p h e = command_at patterns i p h.1 e

no_command : (bytes : List ℕ) → All IsText bytes → IsCommand bytes → ⊥
no_command [] h c = c
no_command (b ∷ bytes) h c = h.0 c

-- In text there is nothing for the program's patterns to match.
pub commands-Harmless :
    (L : Libs) (c : L.Code) (patterns : List Pattern)
    → MatchesTexts L c patterns
    → AllCommands patterns
    → Harmless L IsText c patterns
commands-Harmless L c patterns m h subject code start end all e q at =
    elim (Bool-cases (ltb code 2)) [
      | inl low ↦ absurd (let k = rw low at at in cc)
      | inr high ↦ absurd (
          let k = rw high at at in
          no_command (take (end - start) (drop start subject))
            (All-take IsText (end - start) (drop start subject) (All-drop IsText start subject all))
            (subst IsCommand (sym (m.match_text subject code start end q e k))
              (command_at patterns (code - 2) q h k)))
    ]

-- A first part of a command that is not empty is no text.
no_part :
    (n : ℕ) (pat bytes : List ℕ)
    → IsCommand pat
    → All IsText bytes
    → bytes ≢ []
    → take n pat ≢ bytes
no_part n pat [] c h some_bytes e = some_bytes refl
no_part n [] (b ∷ bytes) c h some_bytes e = c
no_part ℕ.zero (q ∷ pat) (b ∷ bytes) c h some_bytes e = absurd (cc)
no_part (ℕ.suc n) (q ∷ pat) (b ∷ bytes) c h some_bytes e = h.0 (sym (ap (head_or iac) e) ∙ c)
  where
    head_or : ℕ → List ℕ → ℕ
    head_or d [] = d
    head_or d (x ∷ xs) = x

pub commands-Complete :
    (L : Libs) (c : L.Code) (patterns : List Pattern)
    → MatchesTexts L c patterns
    → AllCommands patterns
    → Complete L IsText c
commands-Complete L c patterns m h subject all e =
    let (i, n, p, at, some_bytes, eq) = m.match_part subject e in
    no_part (length (drop n subject)) (c_string p.pat) (drop n subject)
      (command_at patterns i p h at) (All-drop IsText n subject all) some_bytes eq
