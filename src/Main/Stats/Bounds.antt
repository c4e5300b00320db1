-- ===== src/Main/Stats/Bounds.antt =====
-- `log_endpoint_stats` (muditm.c) stays in its buffer, and logs its lines whole.
use mudit_m.Base.{
  ℕ, ◌+◌, ◌≤◌, ◌≡◌, refl, sym, ap, ◌∙◌, Bool, true, false, ◌||◌, List, [], ◌∷◌, ◌++◌, length, codes,
  ltb, if◌then◌else◌, arith,
}
use mathlib.Core.List.{append_assoc}
use mathlib.Core.Path.{subst}
use mudit_m.Run.{ok}
use mudit_m.Iostats.{Timeval, IostatData}
use mudit_m.Iostats.Print.{Double, iostat_unitval, iostat_unitsec, iostat_printhuman}
use mudit_m.Main.Stats.{
  line_of, ratio, sock_texts, mccp_texts, ratio_texts, ratio_lines, log_endpoint_stats,
}
use mudit_m.Main.Stats.Lines.{
  IsWhole, IsShort, PrintsShort, Made, joined, line_of_lem, IsShort-append, IsShort-weaken,
}

constant : (n : ℕ) (text : List ℕ) → IsWhole text → length text ≤ n → IsShort n text
constant n text h k = record { whole = h; short = k }

joined-append : (xs ys : List (List ℕ)) → joined (xs ++ ys) ≡ joined xs ++ joined ys
joined-append [] ys = refl
joined-append (x ∷ xs) ys =
    ap (λ t. x ++ t) (joined-append xs ys) ∙ sym (append_assoc x (joined xs) (joined ys))

joined-IsShort :
    (n m : ℕ) (xs ys : List (List ℕ))
    → IsShort n (joined xs)
    → IsShort m (joined ys)
    → IsShort (n + m) (joined (xs ++ ys))
joined-IsShort n m xs ys h k =
    subst (IsShort (n + m)) (sym (joined-append xs ys)) (IsShort-append n m _ _ h k)

module _ (D : Double) (law : PrintsShort D) where
  -- A number with a unit behind it.
  unit :
      (digits : ℕ) (w : D.W) (text : List ℕ)
      → digits ≤ 2
      → IsWhole text
      → length text ≤ 4
      → IsShort 404 (D.print digits w ++ text)
  unit digits w text d h k =
      IsShort-append 400 4 (D.print digits w) text (law.short digits w d)
        (record { whole = h; short = k })

  -- Each way of the tests of `iostat_unitval`.
  sized :
      (c1 c2 c3 c4 : Bool) (w kilo mega giga tera : D.W)
      → IsShort 404 (
          if c1
          then D.print 0 w ++ codes " "
          else if c2
          then if c3
            then if c4 then D.print 2 tera ++ codes " T" else D.print 2 giga ++ codes " G"
            else D.print 2 mega ++ codes " M"
          else D.print 2 kilo ++ codes " K")
  sized true c2 c3 c4 w kilo mega giga tera =
      unit 0 w (codes " ") (omega arith) (ground arith) (omega arith)
  sized false true true true w kilo mega giga tera =
      unit 2 tera (codes " T") (omega arith) (ground arith) (omega arith)
  sized false true true false w kilo mega giga tera =
      unit 2 giga (codes " G") (omega arith) (ground arith) (omega arith)
  sized false true false c4 w kilo mega giga tera =
      unit 2 mega (codes " M") (omega arith) (ground arith) (omega arith)
  sized false false c3 c4 w kilo mega giga tera =
      unit 2 kilo (codes " K") (omega arith) (ground arith) (omega arith)

  iostat_unitval-IsShort : (w : D.W) → IsShort 404 (iostat_unitval D w)
  unfolding iostat_unitval
  iostat_unitval-IsShort w =
      let k = D.of_long 1024 in
      let kilo = D.over w k in
      let mega = D.over kilo k in
      let giga = D.over mega k in
      sized (D.below w k) (D.below k kilo) (D.below k mega) (D.below k giga) w kilo mega giga
        (D.over giga k)

  -- Each way of the tests of `iostat_unitsec`.
  timed :
      (c1 c2 c3 : Bool) (w minutes hours days : D.W)
      → IsShort 404 (
          if c1
          then D.print 2 w ++ codes " sec"
          else if c2
          then if c3 then D.print 2 days ++ codes " day" else D.print 2 hours ++ codes " hr"
          else D.print 2 minutes ++ codes " min")
  timed true c2 c3 w minutes hours days =
      unit 2 w (codes " sec") (omega arith) (ground arith) (omega arith)
  timed false true true w minutes hours days =
      unit 2 days (codes " day") (omega arith) (ground arith) (omega arith)
  timed false true false w minutes hours days =
      unit 2 hours (codes " hr") (omega arith) (ground arith) (omega arith)
  timed false false c3 w minutes hours days =
      unit 2 minutes (codes " min") (omega arith) (ground arith) (omega arith)

  iostat_unitsec-IsShort : (w : D.W) → IsShort 404 (iostat_unitsec D w)
  unfolding iostat_unitsec
  iostat_unitsec-IsShort w =
      let minutes = D.over w (D.of_long 60) in
      let hours = D.over minutes (D.of_long 60) in
      timed (D.below w (D.of_long 60)) (D.below (D.of_long 60) minutes)
        (D.below (D.of_long 24) hours) w minutes hours (D.over hours (D.of_long 24))

  iostat_printhuman-IsShort :
      (now : Timeval) (ios : IostatData) → IsShort 1300 (joined (iostat_printhuman D now ios))
  unfolding iostat_printhuman
  iostat_printhuman-IsShort now ios =
      IsShort-weaken (404 + (6 + (404 + (7 + (404 + 0))))) 1300 _ (omega arith) (
        IsShort-append 404 _ _ _ (iostat_unitval-IsShort _) (
          IsShort-append 6 _ (codes "B in, ") _
            (constant 6 (codes "B in, ") (ground arith) (omega arith))
            (IsShort-append 404 _ _ _ (iostat_unitval-IsShort _) (
              IsShort-append 7 _ (codes "B out, ") _
                (constant 7 (codes "B out, ") (ground arith) (omega arith))
                (IsShort-append 404 0 _ [] (iostat_unitsec-IsShort _)
                  (constant 0 [] tt (omega arith)))))))

  -- The name, what stands behind it, and the counters.
  traffic-Made :
      (buf name text : List ℕ) (now : Timeval) (ios : IostatData)
      → length buf ≡ 8192
      → IsShort 1000 name
      → IsShort 6 text
      → Made buf
          ((name ++ text) ∷ iostat_printhuman D now ios)
          (line_of buf ((name ++ text) ∷ iostat_printhuman D now ios))
  traffic-Made buf name text now ios size n t =
      let all =
        IsShort-append 1006 1300 _ _ (IsShort-append 1000 6 name text n t)
          (iostat_printhuman-IsShort now ios) in
      line_of_lem buf (name ++ text) (iostat_printhuman D now ios) all.whole
        (omega (arith, all.short, size))

  -- A part of the line on the ratio.
  abbrev shown : Bool → D.W → List ℕ → List (List ℕ)
  shown c w text = if c then (D.print 2 w ++ text) ∷ [] else []

  part :
      (c : Bool) (w : D.W) (text : List ℕ)
      → IsWhole text
      → length text ≤ 5
      → IsShort 405 (joined (shown c w text))
  part true w text h k =
      IsShort-append 405 0 (D.print 2 w ++ text) []
        (IsShort-append 400 5 _ text (law.short 2 w (omega arith)) (constant 5 text h k))
        (constant 0 [] tt (omega arith))
  part false w text h k = constant 405 [] tt (omega arith)

  ratio-Made :
      (buf name : List ℕ) (sockstats mccpstats : IostatData)
      → length buf ≡ 8192
      → IsShort 1000 name
      → Made buf
          (ratio_texts D name sockstats mccpstats)
          (line_of buf (ratio_texts D name sockstats mccpstats))
  unfolding ratio_texts
  ratio-Made buf name sockstats mccpstats size n =
      let any_in = ltb 0 mccpstats.lifetime.bytes_in in
      let any_out = ltb 0 mccpstats.lifetime.bytes_out in
      let w_in = ratio D sockstats.lifetime.bytes_in mccpstats.lifetime.bytes_in in
      let w_out = ratio D sockstats.lifetime.bytes_out mccpstats.lifetime.bytes_out in
      let head = codes " compression ratio " in
      let rest = shown any_in w_in (codes "% in ") ++ shown any_out w_out (codes "% out") in
      let all : IsShort 1829 ((name ++ head) ++ joined rest) =
        IsShort-append 1019 810 (name ++ head) (joined rest)
          (IsShort-append 1000 19 name head n (constant 19 head (ground arith) (omega arith)))
          (joined-IsShort 405 405 (shown any_in w_in (codes "% in "))
            (shown any_out w_out (codes "% out"))
            (part any_in w_in (codes "% in ") (ground arith) (omega arith))
            (part any_out w_out (codes "% out") (ground arith) (omega arith))) in
      line_of_lem buf (name ++ head) rest all.whole (omega (arith, all.short, size))

  ratio_lines_lem :
      (buf name : List ℕ) (sockstats mccpstats : IostatData) (c : Bool)
      → length buf ≡ 8192
      → IsShort 1000 name
      → ratio_lines D buf name sockstats mccpstats c
        ≡ ok (if c then joined (ratio_texts D name sockstats mccpstats) ∷ [] else [])
  ratio_lines_lem buf name sockstats mccpstats false size n = refl
  ratio_lines_lem buf name sockstats mccpstats true size n =
      rw (ratio-Made buf name sockstats mccpstats size n).made refl

  -- A name of at most 1000 bytes, and numbers that are printed with at most 400 bytes and no NUL:
  -- the statistics of an endpoint are printed inside the buffer of 8192 bytes, whatever was in
  -- it, and the lines that are logged are whole - the socket's counters, in debug mode the
  -- compression's, and the ratio if anything was compressed.
  pub log_endpoint_stats_lem :
      (buf name : List ℕ) (debugging : Bool) (now : Timeval) (sockstats mccpstats : IostatData)
      → length buf ≡ 8192
      → IsShort 1000 name
      → log_endpoint_stats D buf debugging name now sockstats mccpstats
        ≡ ok (
            joined (sock_texts D name now sockstats)
            ∷ ((if debugging then joined (mccp_texts D name now mccpstats) ∷ [] else [])
                ++ (if ltb 0 mccpstats.lifetime.bytes_in || ltb 0 mccpstats.lifetime.bytes_out
                    then joined (ratio_texts D name sockstats mccpstats) ∷ []
                    else [])))
  unfolding log_endpoint_stats sock_texts mccp_texts
  log_endpoint_stats_lem buf name debugging now sockstats mccpstats size n =
      let a =
        traffic-Made buf name (codes " sock ") now sockstats size n
          (constant 6 (codes " sock ") (ground arith) (omega arith)) in
      let b =
        traffic-Made a.buf' name (codes " mccp ") now mccpstats (a.same_length ∙ size) n
          (constant 6 (codes " mccp ") (ground arith) (omega arith)) in
      rw
        (
          a.made,
          b.made,
          ratio_lines_lem b.buf' name sockstats mccpstats
              (ltb 0 mccpstats.lifetime.bytes_in || ltb 0 mccpstats.lifetime.bytes_out)
              (b.same_length ∙ a.same_length ∙ size) n,
        )
        refl
