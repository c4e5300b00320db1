-- ===== src/Memory/Held.antt =====
-- What blocks a heap holds, and the release of one (the memory of iobuf.c, handlers.c, mccp.c, proxy.c).
use mudit_m.Base.{
  ℕ, ◌+◌, ◌<◌, ◌≡◌, refl, ap, ◌∙◌, true, false, Option, none, some, List, [], ◌∷◌, ◌++◌, arith,
  Bool-cases, inl, inr, ◌==◌, if◌then◌else◌,
}
use mudit_m.Run.{Returns}
use mudit_m.Memory.{Heap, malloc, without, leaving, free, free_if}

-- One if it is the block, else none.
unfoldable pub tick : ℕ → ℕ → ℕ
tick a b = if a == b then 1 else 0

-- How many times a block is in a list.
abbrev pub times : ℕ → List ℕ → ℕ
times a [] = 0
times a (x ∷ xs) = tick a x + times a xs

pub times-append : (a : ℕ) (xs ys : List ℕ) → times a (xs ++ ys) ≡ times a xs + times a ys
times-append a [] ys = omega arith
times-append a (x ∷ xs) ys = omega (arith, times-append a xs ys)

-- The heap has these blocks and no others.
pub record Holds (h : Heap) (blocks : List ℕ) : Type 0 where
  pub held : (a : ℕ) → times a h.live ≡ times a blocks

-- The same blocks in another order.
pub Holds-order :
    (h : Heap) (xs ys : List ℕ) → Holds h xs → ((a : ℕ) → times a xs ≡ times a ys) → Holds h ys
Holds-order h xs ys k e = record { held = λ a. k.held a ∙ e a }

pub malloc-Holds : (h : Heap) (xs : List ℕ) → Holds h xs → Holds (malloc h).1 (h.next ∷ xs)
malloc-Holds h xs k = record { held = λ a. ap (λ n. tick a h.next + n) (k.held a) }

tick_self : (p : ℕ) → tick p p ≡ 1
unfolding tick
tick_self p = ground arith

tick_other : (p x : ℕ) → p == x ≡ false → tick p x ≡ 0
unfolding tick
tick_other p x e = rw e refl

tick_same : (a p x : ℕ) → p == x ≡ true → tick a p ≡ tick a x
unfolding tick
tick_same a p x e = ground (arith, e)

-- A block that is there can be taken out.
without-times :
    (p : ℕ) (xs : List ℕ)
    → 0 < times p xs
    → (ys : List ℕ) × (without p xs ≡ some ys) × ((a : ℕ) → times a xs ≡ tick a p + times a ys)
without-times p [] h = absurd (omega (arith, h))
without-times p (x ∷ xs) h = elim (Bool-cases (p == x)) [
  | inl same ↦ (xs, rw same refl, λ a. omega (arith, tick_same a p x same))
  | inr other ↦
      let (ys, e, k) = without-times p xs (omega (arith, h, tick_other p x other)) in
      (x ∷ ys, rw (other, e) refl, λ a. omega (arith, k a))
]

-- The release of a block that is there.
pub free-Holds :
    (p : ℕ) (h : Heap) (rest : List ℕ)
    → Holds h (p ∷ rest)
    → Returns (λ h'. Holds h' rest) (free p h)
unfolding free
free-Holds p h rest k =
    let (ys, e, t) = without-times p h.live (omega (arith, k.held p, tick_self p)) in
    rw (e, leaving) (record { held = λ a. omega (arith, t a, k.held a) })

-- The blocks of a pointer that may be NULL.
abbrev pub blocks_of : Option ℕ → List ℕ
blocks_of none = []
blocks_of (some p) = p ∷ []

pub free_if-Holds :
    (p : Option ℕ) (h : Heap) (rest : List ℕ)
    → Holds h (blocks_of p ++ rest)
    → Returns (λ h'. Holds h' rest) (free_if p h)
unfolding free_if
free_if-Holds none h rest k = k
free_if-Holds (some p) h rest k = free-Holds p h rest k
