-- ===== src/Proxy/Drained.antt =====
-- `muditm_proxy` (proxy.c) between sides whose sockets take all bytes, with no compression towards
-- them: the matching loop and the service of a side.
use mudit_m.Base.{
  store, leb, ◌⊎◌, ◌+◌, length, ℕ, zero, suc, ◌-◌, ◌≡◌, refl, ap, Bool, true, false, Option, none,
  some, List, [], ◌∷◌, length, get_elem?, ltb, Bool-cases, inl, inr, length-store,
}
use mathlib.Core.Path.{subst}
use mudit_m.Libs.{Libs, InflateLaws}
use mudit_m.Posix.{Ret, eagain, other_errno}
use mudit_m.Iobuf.{memcpy_tail, Iobuf, push_iobuf, popall_iobuf, len_iobuf, peek_iobuf, avail_iobuf}
use mudit_m.Run.{ok, ◌>>=◌, Fits, Fits-bind, Returns-Fits}
use mudit_m.Conf.{KeyFile}
use mudit_m.Endpoint.{Endpoint, Pattern, PatternAction}
use mudit_m.Endpoint.Reads.{Answers}
use mudit_m.Endpoint.Inflates.{Steady, Yields, read_endpoint-Yields}
use mudit_m.Endpoint.Io.{read_endpoint}
use mudit_m.Handlers.Drained.{
  IsTame, AllTame, IsDrained, touched_drained, pop_match-IsDrained, write_endpoint_drained,
}
use mudit_m.Handlers.Tame.{DrainedBoth, run_action-Drained}
use mudit_m.Proxy.Ends.{MatchResult-cases}
use mudit_m.Proxy.{
  run_match, ship, handle, handle_by, forward_unless, on_match, match_loop, pattern_at, receive,
  Served, goes_on, ends, after_read, serve,
}

some_inj : (a b : Pattern) → some a ≡ some b → a ≡ b
some_inj a b e = cc

get_elem?-IsTame :
    (patterns : List Pattern) (i : ℕ) (p : Pattern)
    → AllTame patterns
    → get_elem? patterns i ≡ some p
    → IsTame p.action
get_elem?-IsTame [] i p h e = absurd (cc)
get_elem?-IsTame (q ∷ patterns) zero p h e =
    subst (λ (x : Pattern). IsTame x.action) (some_inj q p e) h.0
get_elem?-IsTame (q ∷ patterns) (suc i) p h e = get_elem?-IsTame patterns i p h.1 e

pattern_at-IsTame :
    (patterns : List Pattern) (code : ℕ) (p : Pattern)
    → AllTame patterns
    → pattern_at patterns code ≡ some p
    → IsTame p.action
pattern_at-IsTame patterns code p h e = elim (Bool-cases (ltb code 2)) [
  | inl low ↦ let q = rw low at e in cc q
  | inr high ↦ get_elem?-IsTame patterns (code - 2) p h (rw high at e)
]

memcpy_tail-Option :
    (iob : Iobuf) (bytes : List ℕ)
    → (memcpy_tail iob bytes ≡ none)
      ⊎ (memcpy_tail iob bytes ≡ some (record iob { block = store iob.block iob.tail bytes }))
unfolding memcpy_tail
memcpy_tail-Option iob bytes = elim (Bool-cases (leb (iob.tail + length bytes) iob.length)) [
  | inl fits ↦ inr (rw fits refl)
  | inr over ↦ inl (rw over refl)
]

-- A read keeps the size of the block.
receive-Fits :
    (iob : Iobuf) (bytes : List ℕ) (n : ℕ)
    → Fits (λ (b : Iobuf). length b.block ≡ length iob.block) (receive iob bytes n)
unfolding receive push_iobuf
receive-Fits iob bytes n = elim (memcpy_tail-Option iob bytes) [
  | inl over ↦ rw over tt
  | inr within ↦ rw within (length-store iob.block iob.tail bytes)
]

module _ (L : Libs) where
  abbrev pub DrainedSides : Endpoint L × Endpoint L → Type 0
  DrainedSides (from, to) = IsDrained L from × IsDrained L to

  ship-Drained :
      (n : ℕ) (from to : Endpoint L)
      → IsDrained L from
      → IsDrained L to
      → Fits DrainedSides (ship L n from to)
  unfolding ship
  ship-Drained zero from to f t = (f, t)
  ship-Drained (suc n) from to f t =
      let w = write_endpoint_drained L to (peek_iobuf from.iobuf_in (suc n)) t in
      rw w.0 (pop_match-IsDrained L (suc n) from f, w.1)

  forward_unless-Drained :
      (n : ℕ) (handled : Bool) (from to : Endpoint L)
      → IsDrained L from
      → IsDrained L to
      → Fits DrainedSides (forward_unless L handled n from to)
  unfolding forward_unless
  forward_unless-Drained n true from to f t = (f, t)
  forward_unless-Drained n false from to f t =
      let w = write_endpoint_drained L to (peek_iobuf from.iobuf_in n) t in
      rw w.0 (pop_match-IsDrained L n from f, w.1)

  handle_by-Drained :
      (gkf : KeyFile) (a : Option PatternAction) (n : ℕ) (from to : Endpoint L)
      → IsDrained L from
      → IsDrained L to
      → IsTame a
      → Fits (DrainedBoth L) (handle_by L gkf a n from to)
  handle_by-Drained gkf none n from to f t h = (f, t)
  handle_by-Drained gkf (some action) n from to f t h =
      Returns-Fits (DrainedBoth L) _ (run_action-Drained L n from to f t gkf action h)

  handle-Drained :
      (gkf : KeyFile) (p : Option Pattern) (n : ℕ) (from to : Endpoint L)
      → IsDrained L from
      → IsDrained L to
      → ((q : Pattern) → p ≡ some q → IsTame q.action)
      → Fits (DrainedBoth L) (handle L gkf p n from to)
  unfolding handle
  handle-Drained gkf none n from to f t h = (f, t)
  handle-Drained gkf (some p) n from to f t h =
      handle_by-Drained gkf p.action n from to f t (h p refl)

  on_match-Drained :
      (gkf : KeyFile) (p : Option Pattern) (start end : ℕ) (from to : Endpoint L)
      → IsDrained L from
      → IsDrained L to
      → ((q : Pattern) → p ≡ some q → IsTame q.action)
      → Fits DrainedSides (on_match L gkf p start end from to)
  unfolding on_match
  on_match-Drained gkf p start end from to f t h =
      Fits-bind DrainedSides _ (ship L start from to) _ (ship-Drained start from to f t)
        (λ (from1, to1) a.
          Fits-bind (DrainedBoth L) _ (handle L gkf p (end - start) from1 to1) _
            (handle-Drained gkf p (end - start) from1 to1 a.0 a.1 h)
            (λ (handled, from2, to2) b.
              forward_unless-Drained (end - start) handled from2 to2 b.0 b.1))

  -- Behind a match the loop goes on, or its input is empty.
  next_round :
      (gkf : KeyFile) (fuel : ℕ) (p : Option Pattern) (start end : ℕ) (from to : Endpoint L)
      → IsDrained L from
      → IsDrained L to
      → ((q : Pattern) → p ≡ some q → IsTame q.action)
      → ((from' to' : Endpoint L)
          → IsDrained L from'
          → IsDrained L to'
          → Fits DrainedSides (match_loop L gkf fuel from' to'))
      → Fits DrainedSides (
          on_match L gkf p start end from to >>= λ (from', to').
          elim (ltb 0 (len_iobuf from'.iobuf_in)) [
            | true ↦ match_loop L gkf fuel from' to'
            | false ↦ ok (from', to')
          ])
  next_round gkf fuel p start end from to f t h again =
      Fits-bind DrainedSides _ (on_match L gkf p start end from to) _
        (on_match-Drained gkf p start end from to f t h)
        (λ (from', to') a. elim (Bool-cases (ltb 0 (len_iobuf from'.iobuf_in))) [
          | inl more ↦ rw more (again from' to' a.0 a.1)
          | inr done ↦ rw done a
        ])

  match_loop-Drained :
      (gkf : KeyFile) (fuel : ℕ) (from to : Endpoint L)
      → IsDrained L from
      → IsDrained L to
      → Fits DrainedSides (match_loop L gkf fuel from to)
  unfolding match_loop popall_iobuf
  match_loop-Drained gkf zero from to f t = tt
  match_loop-Drained gkf (suc fuel) from to f t = elim (MatchResult-cases (run_match L from)) [
    | inl e ↦
        let w =
          write_endpoint_drained L to (peek_iobuf from.iobuf_in (len_iobuf from.iobuf_in)) t in
        rw (e, match_loop, w.0) (touched_drained L from _ f refl refl refl refl refl, w.1)
    | inr (inl e) ↦ rw (e, match_loop) (f, t)
    | inr (inr (inl (code, start, end, e))) ↦
        rw (e, match_loop)
          (next_round gkf fuel (pattern_at from.patterns code) start end from to f t
            (λ q h. pattern_at-IsTame from.patterns code q f.flowing.tame h)
            (λ from' to' a b. match_loop-Drained gkf fuel from' to' a b))
    | inr (inr (inr (start, end, e))) ↦
        rw (e, match_loop)
          (next_round gkf fuel none start end from to f t (λ q h. absurd (cc))
            (λ from' to' a b. match_loop-Drained gkf fuel from' to' a b))
  ]

  abbrev pub DrainedServed : Served L → Type 0
  DrainedServed (goes_on from to) = IsDrained L from × IsDrained L to
  DrainedServed (ends ret from to) = IsDrained L from × IsDrained L to

  after_read-Drained :
      (gkf : KeyFile) (ret : Ret) (bytes : List ℕ) (from to : Endpoint L)
      → IsDrained L from
      → IsDrained L to
      → Fits DrainedServed (after_read L gkf ret bytes from to)
  unfolding after_read
  after_read-Drained gkf (Ret.failed eagain) bytes from to f t = (f, t)
  after_read-Drained gkf (Ret.failed other_errno) bytes from to f t = (f, t)
  after_read-Drained gkf (Ret.count zero) bytes from to f t = (f, t)
  after_read-Drained gkf (Ret.count (suc n)) bytes from to f t =
      Fits-bind (λ (b : Iobuf). length b.block ≡ length from.iobuf_in.block) _
        (receive from.iobuf_in bytes (suc n)) _ (receive-Fits from.iobuf_in bytes (suc n))
        (λ pushed same.
          let start = record from { iobuf_in = pushed } in
          Fits-bind DrainedSides _ (match_loop L gkf (suc (len_iobuf pushed)) start to) _
            (match_loop-Drained gkf (suc (len_iobuf pushed)) start to
              (touched_drained L from start f same refl refl refl refl) t)
            (λ (from', to') a. a))

  read-IsDrained :
      (from from' : Endpoint L) → IsDrained L from → Steady L from from' → IsDrained L from'
  read-IsDrained from from' f s =
      touched_drained L from from' f (ap (λ (b : Iobuf). length b.block) s.same_in) s.same_out
        s.same_mccp_out s.same_outgoing s.same_patterns

  pub serve-Drained :
      (inflates : InflateLaws L) (gkf : KeyFile) (from to : Endpoint L)
      → Answers L from
      → IsDrained L from
      → IsDrained L to
      → Fits DrainedServed (serve L gkf from to)
  unfolding serve
  serve-Drained inflates gkf from to live f t =
      Fits-bind (Yields L (avail_iobuf from.iobuf_in) from) _
        (read_endpoint L from (avail_iobuf from.iobuf_in)) _
        (Returns-Fits (Yields L (avail_iobuf from.iobuf_in) from)
          (read_endpoint L from (avail_iobuf from.iobuf_in))
          (read_endpoint-Yields L inflates (avail_iobuf from.iobuf_in) from live))
        (λ (ret, bytes, from') y.
          after_read-Drained gkf ret bytes from' to (read-IsDrained from from' f y.0) t)
