-- ===== src/Demon/Fatal.antt =====
-- `fatal_handler` of muditm.c: the line that a crashing process writes, put together in a fixed buffer
-- with no call that a signal handler may not make. The trace that follows is the system's.
use mudit_m.Base.{
  ℕ, zero, suc, ◌+◌, ◌/◌, ◌%◌, ◌^◌, ◌≤◌, ◌<◌, ◌≡◌, refl, sym, ◌∙◌, Bool, true, false, Option, none,
  some, List, [], ◌∷◌, ◌++◌, length, length-append, codes, decimal, digits_before, tenfold,
  length-digits_before, digits_before_one, digits_before_more, ltb, ◌==◌, if◌then◌else◌, arith,
  Bool-cases, inl, inr, lt→ltb, ltb→lt,
}
use mathlib.Core.List.{append-nil, append_assoc}

-- The signals that are told apart.
pub data Signal : Type 0 where
  sigsegv sigbus sigabrt other_signal : Signal

abbrev pub signal_name : Signal → List ℕ
signal_name sigsegv = codes "SIGSEGV"
signal_name sigbus = codes "SIGBUS"
signal_name sigabrt = codes "SIGABRT"
signal_name other_signal = codes "UNKNOWN"

abbrev pub role_name : Bool → List ℕ
role_name true = codes "parent"
role_name false = codes "child"

-- `while(*text && n < (int)sizeof(buf) - 1) buf[n++] = *text++`, for what `buf` holds so far.
unfoldable pub put_text : List ℕ → List ℕ → List ℕ
put_text [] buf = buf
put_text (c ∷ text) buf =
    let rest = put_text text (buf ++ (c ∷ [])) in if ltb (length buf) 127 then rest else buf

-- The do loop into `digits`, last digit first, so that the list is in the order in which it is read
-- out. There is no test of the space, which is the argument; `none` is a write past it.
unfoldable pub put_digits : ℕ → ℕ → List ℕ → Option (List ℕ)
put_digits zero pid digits = none
put_digits (suc room) pid digits =
    let rest = put_digits room (pid / 10) ((b'0' + pid % 10) ∷ digits) in
    if pid / 10 == 0 then some ((b'0' + pid % 10) ∷ digits) else rest

-- The bytes that are written; the newline is put with no test.
unfoldable pub fatal_handler : Signal → (is_parent : Bool) → (pid : ℕ) → Option (List ℕ)
fatal_handler s is_parent pid = elim (put_digits 16 pid []) [
  | none ↦ none
  | some digits ↦
      let buf1 = put_text digits (put_text (codes "FATAL [") []) in
      let buf2 = put_text (b' ' ∷ []) (put_text (b']' ∷ []) buf1) in
      let buf3 = put_text (b' ' ∷ []) (put_text (role_name is_parent) buf2) in
      let buf4 = put_text (signal_name s) buf3 in
      if ltb (length buf4) 128 then some (buf4 ++ (10 ∷ [])) else none
]

put_digits_lem :
    (room fuel pid : ℕ) (digits : List ℕ)
    → pid < tenfold (suc room)
    → pid < fuel
    → put_digits (suc room) pid digits ≡ some (digits_before fuel pid digits)
unfolding put_digits
put_digits_lem room zero pid digits h k = absurd (omega arith)
put_digits_lem zero (suc fuel) pid digits h k =
    ground (arith, digits_before_one fuel pid digits (omega arith))
put_digits_lem (suc room) (suc fuel) pid digits h k = elim (Bool-cases (ltb pid 10)) [
  | inl small ↦ rw (digits_before_one fuel pid digits (ltb→lt pid 10 small)) (ground arith)
  | inr large ↦
      let more : (pid / 10 == 0) ≡ false = ground arith in
      rw (digits_before_more fuel pid digits (ground arith), more)
        (put_digits_lem room fuel (pid / 10) ((b'0' + pid % 10) ∷ digits) (omega arith)
          (ground arith))
]

put_text_fits :
    (text buf : List ℕ) → length buf + length text ≤ 127 → put_text text buf ≡ buf ++ text
unfolding put_text
put_text_fits [] buf h = sym (append-nil buf)
put_text_fits (c ∷ text) buf h = rw (lt→ltb (length buf) 127 (omega arith)) (
    put_text_fits text (buf ++ (c ∷ [])) (omega (arith, h, length-append buf (c ∷ [])))
    ∙ append_assoc buf (c ∷ []) text)

length-role_name : (b : Bool) → length (role_name b) ≤ 6
length-role_name true = omega arith
length-role_name false = omega arith

length-signal_name : (s : Signal) → length (signal_name s) ≤ 7
length-signal_name sigsegv = omega arith
length-signal_name sigbus = omega arith
length-signal_name sigabrt = omega arith
length-signal_name other_signal = omega arith

-- The line as it should read.
abbrev pub fatal_line : Signal → Bool → ℕ → List ℕ
fatal_line s is_parent pid =
    (((((codes "FATAL [" ++ decimal pid) ++ (b']' ∷ [])) ++ (b' ' ∷ [])) ++ role_name is_parent)
      ++ (b' ' ∷ []))
    ++ signal_name s

-- One text behind another, with the length that has been reached.
puts :
    (text buf before : List ℕ) (n : ℕ)
    → buf ≡ before
    → length before ≤ n
    → n + length text ≤ 127
    → (put_text text buf ≡ before ++ text) × (length (before ++ text) ≤ n + length text)
puts text buf before n e h room =
    rw e (put_text_fits text before (omega arith), omega (arith, h, length-append before text))

assembled :
    (digits role name : List ℕ)
    → length digits ≤ 10
    → length role ≤ 6
    → length name ≤ 7
    → let line =
        (((((codes "FATAL [" ++ digits) ++ (b']' ∷ [])) ++ (b' ' ∷ [])) ++ role) ++ (b' ' ∷ []))
        ++ name in
      let buf1 = put_text digits (put_text (codes "FATAL [") []) in
      let buf2 = put_text (b' ' ∷ []) (put_text (b']' ∷ []) buf1) in
      let buf3 = put_text (b' ' ∷ []) (put_text role buf2) in
      (put_text name buf3 ≡ line) × (length line ≤ 33)
assembled digits role name d r n =
    let p0 = puts (codes "FATAL [") [] [] 0 refl (omega arith) (omega arith) in
    let p1 = puts digits _ _ 7 p0.0 (omega arith) (omega (arith, d)) in
    let p2 = puts (b']' ∷ []) _ _ 17 p1.0 (omega (arith, p1.1, d)) (omega arith) in
    let p3 = puts (b' ' ∷ []) _ _ 18 p2.0 (omega (arith, p2.1)) (omega arith) in
    let p4 = puts role _ _ 19 p3.0 (omega (arith, p3.1)) (omega (arith, r)) in
    let p5 = puts (b' ' ∷ []) _ _ 25 p4.0 (omega (arith, p4.1, r)) (omega arith) in
    let p6 = puts name _ _ 26 p5.0 (omega (arith, p5.1)) (omega (arith, n)) in
    (p6.0, omega (arith, p6.1, n))

-- For a process number below 2^31 the handler of fatal signals stays inside its buffers of 128
-- and 16 bytes, and the line is not cut: FATAL, the number in decimal in brackets, the role, the
-- signal's name and a newline.
pub fatal_handler_lem :
    (s : Signal) (is_parent : Bool) (pid : ℕ)
    → pid < 2 ^ 31
    → fatal_handler s is_parent pid ≡ some (fatal_line s is_parent pid ++ (10 ∷ []))
unfolding fatal_handler
fatal_handler_lem s is_parent pid h =
    let a =
      assembled (decimal pid) (role_name is_parent) (signal_name s)
        (omega (arith, length-digits_before 9 (suc pid) pid [] (omega arith) (omega arith)))
        (length-role_name is_parent) (length-signal_name s) in
    rw
      (
        fatal_handler,
        put_digits_lem 15 (suc pid) pid [] (omega arith) (omega arith),
        a.0,
        lt→ltb (length (fatal_line s is_parent pid)) 128 (omega (arith, a.1)),
      )
      refl
