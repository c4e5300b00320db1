-- ===== src/Iostats/Print.antt =====
-- The rates of iostats.c and the printing of its counters. What the code does with a `double` is a
-- parameter; a clock does not go back; the locale is C's, where a quote in a format has no effect.
use mudit_m.Base.{
  ℕ, ◌+◌, ◌-◌, ◌*◌, ◌&&◌, Bool, List, [], ◌∷◌, ◌++◌, length, take, store, codes, decimal, ltb, ◌==◌,
  if◌then◌else◌,
}
use mudit_m.Run.{Run, ok, overrun, stray, ◌>>=◌}
use mudit_m.Iostats.{Timeval, IostatData}

-- All that the code does with a `double`: `print` has the digits behind the point.
pub record Double : Type 1 where
  pub W : Type 0
  pub of_long : ℕ → W
  pub to_long : W → ℕ
  pub plus : W → W → W
  pub minus : W → W → W
  pub times : W → W → W
  pub over : W → W → W
  pub below : W → W → Bool
  pub print : (digits : ℕ) → W → List ℕ

-- `timersub`.
unfoldable pub timersub : Timeval → Timeval → Timeval
timersub a b =
    if ltb a.tv_usec b.tv_usec
    then record { tv_sec = a.tv_sec - b.tv_sec - 1; tv_usec = a.tv_usec + 1_000_000 - b.tv_usec }
    else record { tv_sec = a.tv_sec - b.tv_sec; tv_usec = a.tv_usec - b.tv_usec }

-- A `char` buffer, and the offset of `s` in it.
pub record Printer : Type 0 where
  pub block : List ℕ
  pub at : ℕ

-- `s += g_snprintf(s,eos-s,...)` of a format that yields `text`. A pointer behind the end makes the
-- size a huge one, and the print is past the block.
unfoldable pub snprintf_at : List ℕ → Printer → Run Printer
snprintf_at text p =
    let room = length p.block - p.at in
    if ltb (length p.block) p.at
    then overrun stray
    else if room == 0
    then ok (record p { at = p.at + length text })
    else ok (record {
      block = store p.block p.at (take (room - 1) text ++ (0 ∷ []));
      at = p.at + length text;
    })

-- One print behind the other.
unfoldable pub print_all : List (List ℕ) → Printer → Run Printer
print_all [] p = ok p
print_all (text ∷ texts) p = snprintf_at text p >>= print_all texts

module _ (D : Double) where
  abbrev number : ℕ → D.W
  number n = D.of_long n

  unfoldable pub iostat_unitval : D.W → List ℕ
  iostat_unitval val =
      let kilo = D.over val (number 1024) in
      let mega = D.over kilo (number 1024) in
      let giga = D.over mega (number 1024) in
      let tera = D.over giga (number 1024) in
      if D.below val (number 1024)
      then D.print 0 val ++ codes " "
      else if D.below (number 1024) kilo
      then if D.below (number 1024) mega
        then if D.below (number 1024) giga
          then D.print 2 tera ++ codes " T"
          else D.print 2 giga ++ codes " G"
        else D.print 2 mega ++ codes " M"
      else D.print 2 kilo ++ codes " K"

  unfoldable pub iostat_unitsec : D.W → List ℕ
  iostat_unitsec val =
      let minutes = D.over val (number 60) in
      let hours = D.over minutes (number 60) in
      let days = D.over hours (number 24) in
      if D.below val (number 60)
      then D.print 2 val ++ codes " sec"
      else if D.below (number 60) minutes
      then if D.below (number 24) hours
        then D.print 2 days ++ codes " day"
        else D.print 2 hours ++ codes " hr"
      else D.print 2 minutes ++ codes " min"

  -- The seconds of a time with its fraction.
  abbrev pub seconds : Timeval → D.W
  seconds t = D.plus (number t.tv_sec) (D.over (number t.tv_usec) (number 1_000_000))

  -- What is printed, in turn.
  unfoldable pub iostat_printhuman : (now : Timeval) → IostatData → List (List ℕ)
  iostat_printhuman now ios =
      iostat_unitval (number ios.lifetime.bytes_in)
      ∷ codes "B in, "
      ∷ iostat_unitval (number ios.lifetime.bytes_out)
      ∷ codes "B out, "
      ∷ iostat_unitsec (seconds (timersub now ios.lifetime.ts))
      ∷ []

  -- The bits in a second.
  abbrev rate_of : ℕ → D.W → D.W
  rate_of bytes deltat = D.over (number (bytes * 8)) deltat

  unfoldable pub iostat_printhrate : IostatData → List (List ℕ)
  iostat_printhrate ios =
      let deltat = seconds ios.rate.ts in
      if (ios.rate.ts.tv_sec == 0) && (ios.rate.ts.tv_usec == 0)
      then codes "No Rate Data." ∷ []
      else iostat_unitval (rate_of ios.rate.bytes_in deltat)
        ∷ codes "b/s in, "
        ∷ iostat_unitval (rate_of ios.rate.bytes_out deltat)
        ∷ codes "b/s out, ("
        ∷ iostat_unitsec deltat
        ∷ codes ")"
        ∷ []

  -- The weighted rate. `gettimeofday` gives `now`; a `long` is a natural number here.
  unfoldable pub iostat_checkpoint : (now : Timeval) → IostatData → (weight : D.W) → IostatData
  iostat_checkpoint now ios weight =
      let deltain = ios.lifetime.bytes_in - ios.checkpoint.bytes_in in
      let deltaout = ios.lifetime.bytes_out - ios.checkpoint.bytes_out in
      let mixed : ℕ → ℕ → ℕ = λ delta rate. D.to_long (
        D.plus (D.times weight (number delta))
          (D.times (D.minus (number 1) weight) (number rate))) in
      record ios {
        rate = record {
          ts = timersub now ios.checkpoint.ts;
          bytes_in = mixed deltain ios.rate.bytes_in;
          bytes_out = mixed deltaout ios.rate.bytes_out;
        };
        checkpoint = record {
          ts = now;
          bytes_in = ios.lifetime.bytes_in;
          bytes_out = ios.lifetime.bytes_out;
        };
      }

unfoldable pub iostat_printraw : (now : Timeval) → IostatData → List (List ℕ)
iostat_printraw now ios =
    (decimal ios.lifetime.bytes_in
      ++ (codes " B in, "
          ++ (decimal ios.lifetime.bytes_out
              ++ (codes " B out, "
                  ++ (decimal (timersub now ios.lifetime.ts).tv_sec ++ codes " s")))))
    ∷ []
