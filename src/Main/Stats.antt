-- ===== src/Main/Stats.antt =====
-- `log_endpoint_stats` of muditm.c: what is logged of an endpoint's traffic.
pub mod Lines
pub mod Bounds
use mudit_m.Base.{
  ℕ, Bool, true, false, ◌||◌, Option, none, some, List, [], ◌∷◌, ◌++◌, codes, ltb, if◌then◌else◌,
}
use mudit_m.Iostats.{Timeval, IostatData}
use mudit_m.Iostats.Print.{Double, Printer, print_all, iostat_printhuman}
use mudit_m.Run.{Run, ok, ◌>>=◌}
use mudit_m.Handlers.Patterns.{c_string}

-- The line that the prints make in `buf`, and what is then in `buf`.
unfoldable pub line_of : (buf : List ℕ) → List (List ℕ) → Run (List ℕ × List ℕ)
line_of buf texts = do
  p ← print_all texts (record { block = buf; at = 0 })
  ok (c_string p.block, p.block)

module _ (D : Double) where
  -- The compression in percent: 100.0 * (1.0 - sock / mccp).
  abbrev pub ratio : ℕ → ℕ → D.W
  ratio sock mccp =
      D.times (D.of_long 100) (D.minus (D.of_long 1) (D.over (D.of_long sock) (D.of_long mccp)))

  unfoldable pub sock_texts : (name : List ℕ) → Timeval → IostatData → List (List ℕ)
  sock_texts name now sockstats = (name ++ codes " sock ") ∷ iostat_printhuman D now sockstats

  unfoldable pub mccp_texts : (name : List ℕ) → Timeval → IostatData → List (List ℕ)
  mccp_texts name now mccpstats = (name ++ codes " mccp ") ∷ iostat_printhuman D now mccpstats

  unfoldable pub ratio_texts : (name : List ℕ) → (sockstats mccpstats : IostatData) → List (List ℕ)
  ratio_texts name sockstats mccpstats =
      (name ++ codes " compression ratio ")
      ∷ ((if ltb 0 mccpstats.lifetime.bytes_in
            then (D.print 2 (ratio sockstats.lifetime.bytes_in mccpstats.lifetime.bytes_in)
                ++ codes "% in ")
              ∷ []
            else [])
          ++ (if ltb 0 mccpstats.lifetime.bytes_out
              then (D.print 2 (ratio sockstats.lifetime.bytes_out mccpstats.lifetime.bytes_out)
                  ++ codes "% out")
                ∷ []
              else []))

  -- The line on the ratio, if there was compression.
  abbrev pub ratio_lines :
      (buf name : List ℕ) (sockstats mccpstats : IostatData) → Bool → Run (List (List ℕ))
  ratio_lines buf name sockstats mccpstats false = ok []
  ratio_lines buf name sockstats mccpstats true = do
    (line, _) ← line_of buf (ratio_texts name sockstats mccpstats)
    ok (line ∷ [])

  -- The messages, in order, from what is in `buf`; the second is printed in any case, and logged in
  -- debug mode.
  unfoldable pub log_endpoint_stats :
      (buf : List ℕ) (debugging : Bool) (name : List ℕ) (now : Timeval)
      (sockstats mccpstats : IostatData)
      → Run (List (List ℕ))
  log_endpoint_stats buf debugging name now sockstats mccpstats = do
    (sock, buf1) ← line_of buf (sock_texts name now sockstats)
    (mccp, buf2) ← line_of buf1 (mccp_texts name now mccpstats)
    rest ←
        ratio_lines buf2 name sockstats mccpstats
          (ltb 0 mccpstats.lifetime.bytes_in || ltb 0 mccpstats.lifetime.bytes_out)
    ok (sock ∷ ((if debugging then mccp ∷ [] else []) ++ rest))
