-- ===== src/Base/Lists.antt =====
-- Lists measured and indexed by native numbers, and a store of bytes into a block of memory.
use Prim.Native.Nat.{ℕ, zero, suc, ◌+◌, ◌-◌, ◌≤◌, min}
use mathlib.Core.Path.{◌≡◌, refl, sym, ap, ◌∙◌}
use mathlib.Core.List.{List, [], ◌∷◌, ◌++◌}
use mathlib.Core.Option.{Option, none, some}
use native.Mathlib.Omega.{arith}

module _ {ℓ} {A : Type ℓ} where
  abbrev pub length : List A → ℕ
  length [] = 0
  length (x ∷ xs) = suc (length xs)

  abbrev pub get_elem? : List A → ℕ → Option A
  get_elem? [] i = none
  get_elem? (x ∷ xs) zero = some x
  get_elem? (x ∷ xs) (suc i) = get_elem? xs i

  abbrev pub take : ℕ → List A → List A
  take zero xs = []
  take (suc n) [] = []
  take (suc n) (x ∷ xs) = x ∷ take n xs

  abbrev pub drop : ℕ → List A → List A
  drop zero xs = xs
  drop (suc n) [] = []
  drop (suc n) (x ∷ xs) = drop n xs

  abbrev pub replicate : ℕ → A → List A
  replicate zero a = []
  replicate (suc n) a = a ∷ replicate n a

  -- The block after `bytes` are stored from offset `at` on. What would lie past the end is lost:
  -- callers test the bound first.
  abbrev pub store : List A → ℕ → List A → List A
  store block zero [] = block
  store [] zero (x ∷ xs) = []
  store (b ∷ block) zero (x ∷ xs) = x ∷ store block zero xs
  store [] (suc at) xs = []
  store (b ∷ block) (suc at) xs = b ∷ store block at xs

module _ {ℓ} {A : Type ℓ} where
  pub length-append : (xs ys : List A) → length (xs ++ ys) ≡ length xs + length ys
  length-append [] ys = omega arith
  length-append (x ∷ xs) ys = omega (arith, length-append xs ys)

  pub take-append-drop : (n : ℕ) (xs : List A) → take n xs ++ drop n xs ≡ xs
  take-append-drop zero xs = refl
  take-append-drop (suc n) [] = refl
  take-append-drop (suc n) (x ∷ xs) = ap (λ t. x ∷ t) (take-append-drop n xs)

  pub length-take : (n : ℕ) (xs : List A) → length (take n xs) ≡ min n (length xs)
  length-take zero xs = omega arith
  length-take (suc n) [] = omega arith
  length-take (suc n) (x ∷ xs) = omega (arith, length-take n xs)

  pub length-drop : (n : ℕ) (xs : List A) → length (drop n xs) ≡ length xs - n
  length-drop zero xs = omega arith
  length-drop (suc n) [] = omega arith
  length-drop (suc n) (x ∷ xs) = omega (arith, length-drop n xs)

  pub length-replicate : (n : ℕ) (a : A) → length (replicate n a) ≡ n
  length-replicate zero a = refl
  length-replicate (suc n) a = ap suc (length-replicate n a)

  pub take_all : (n : ℕ) (xs : List A) → length xs ≤ n → take n xs ≡ xs
  take_all zero [] h = refl
  take_all zero (x ∷ xs) h = absurd (omega arith)
  take_all (suc n) [] h = refl
  take_all (suc n) (x ∷ xs) h = ap (λ t. x ∷ t) (take_all n xs (omega arith))

  pub take-append : (xs ys : List A) → take (length xs) (xs ++ ys) ≡ xs
  take-append [] ys = refl
  take-append (x ∷ xs) ys = ap (λ t. x ∷ t) (take-append xs ys)

  pub drop-append : (xs ys : List A) → drop (length xs) (xs ++ ys) ≡ ys
  drop-append [] ys = refl
  drop-append (x ∷ xs) ys = drop-append xs ys

  pub take-take : (m n : ℕ) (xs : List A) → m ≤ n → take m (take n xs) ≡ take m xs
  take-take zero n xs h = refl
  take-take (suc m) zero xs h = absurd (omega arith)
  take-take (suc m) (suc n) [] h = refl
  take-take (suc m) (suc n) (x ∷ xs) h = ap (λ t. x ∷ t) (take-take m n xs (omega arith))

  pub length-store :
      (block : List A) (at : ℕ) (xs : List A) → length (store block at xs) ≡ length block
  length-store block zero [] = refl
  length-store [] zero (x ∷ xs) = refl
  length-store (b ∷ block) zero (x ∷ xs) = ap suc (length-store block zero xs)
  length-store [] (suc at) xs = refl
  length-store (b ∷ block) (suc at) xs = ap suc (length-store block at xs)

  -- What lies before the store is kept, and what was stored is read back behind it.
  pub take-store :
      (block : List A) (at : ℕ) (xs : List A) (n : ℕ)
      → at + length xs ≤ length block
      → n ≡ at + length xs
      → take n (store block at xs) ≡ take at block ++ xs
  take-store block zero [] zero h e = refl
  take-store block zero [] (suc n) h e = absurd (omega arith)
  take-store [] zero (x ∷ xs) n h e = absurd (omega arith)
  take-store (b ∷ block) zero (x ∷ xs) zero h e = absurd (omega arith)
  take-store (b ∷ block) zero (x ∷ xs) (suc n) h e =
      ap (λ t. x ∷ t) (take-store block zero xs n (omega arith) (omega arith))
  take-store [] (suc at) xs n h e = absurd (omega arith)
  take-store (b ∷ block) (suc at) xs zero h e = absurd (omega arith)
  take-store (b ∷ block) (suc at) xs (suc n) h e =
      ap (λ t. b ∷ t) (take-store block at xs n (omega arith) (omega arith))

  pub take-nil : (n : ℕ) → take {A = A} n [] ≡ []
  take-nil zero = refl
  take-nil (suc n) = refl

  drop-nil : (n : ℕ) → drop {A = A} n [] ≡ []
  drop-nil zero = refl
  drop-nil (suc n) = refl

  pub drop-drop : (m n : ℕ) (xs : List A) → drop n (drop m xs) ≡ drop (m + n) xs
  drop-drop zero n xs = ap (λ k. drop k xs) (omega arith)
  drop-drop (suc m) n [] = drop-nil n ∙ sym (drop-nil (suc m + n))
  drop-drop (suc m) n (x ∷ xs) = drop-drop m n xs ∙ ap (λ k. drop k (x ∷ xs)) (add_suc m n)
    where
      add_suc : (a b : ℕ) → suc (a + b) ≡ suc a + b
      add_suc a b = omega arith

  pub drop_all : (n : ℕ) (xs : List A) → length xs ≤ n → drop n xs ≡ []
  drop_all zero [] h = refl
  drop_all zero (x ∷ xs) h = absurd (omega arith)
  drop_all (suc n) [] h = refl
  drop_all (suc n) (x ∷ xs) h = drop_all n xs (omega arith)

  pub take_eq : (m n : ℕ) (xs : List A) → m ≡ n → take m xs ≡ take n xs
  take_eq m n xs e = ap (λ k. take k xs) e

  pub drop-take : (n m : ℕ) (xs : List A) → drop n (take m xs) ≡ take (m - n) (drop n xs)
  drop-take zero m xs = take_eq m (m - 0) xs (omega arith)
  drop-take (suc n) zero [] = sym (take-nil (0 - suc n))
  drop-take (suc n) zero (x ∷ xs) = take_eq 0 (0 - suc n) (drop n xs) (omega arith)
  drop-take (suc n) (suc m) [] = sym (take-nil (suc m - suc n))
  drop-take (suc n) (suc m) (x ∷ xs) =
      drop-take n m xs ∙ take_eq (m - n) (suc m - suc n) (drop n xs) (omega arith)

  -- As `take-store`, where more is stored than is read back.
  pub take-store_part :
      (block : List A) (at : ℕ) (xs ys : List A) (n : ℕ)
      → at + length xs ≤ length block
      → n ≡ at + length xs
      → take n (store block at (xs ++ ys)) ≡ take at block ++ xs
  take-store_part block zero [] ys zero h e = refl
  take-store_part block zero [] ys (suc n) h e = absurd (omega arith)
  take-store_part [] zero (x ∷ xs) ys n h e = absurd (omega arith)
  take-store_part (b ∷ block) zero (x ∷ xs) ys zero h e = absurd (omega arith)
  take-store_part (b ∷ block) zero (x ∷ xs) ys (suc n) h e =
      ap (λ t. x ∷ t) (take-store_part block zero xs ys n (omega arith) (omega arith))
  take-store_part [] (suc at) [] ys zero h e = refl
  take-store_part [] (suc at) [] ys (suc n) h e = absurd (omega arith)
  take-store_part [] (suc at) (x ∷ xs) ys n h e = absurd (omega arith)
  take-store_part (b ∷ block) (suc at) xs ys zero h e = absurd (omega arith)
  take-store_part (b ∷ block) (suc at) xs ys (suc n) h e =
      ap (λ t. b ∷ t) (take-store_part block at xs ys n (omega arith) (omega arith))

-- Every element has a property.
abbrev pub All : (ℕ → Type 0) → List ℕ → Type 0
All P [] = Unit
All P (x ∷ xs) = P x × All P xs

pub All-drop : (P : ℕ → Type 0) (n : ℕ) (xs : List ℕ) → All P xs → All P (drop n xs)
All-drop P zero xs h = h
All-drop P (suc n) [] h = tt
All-drop P (suc n) (x ∷ xs) h = All-drop P n xs h.1

pub All-take : (P : ℕ → Type 0) (n : ℕ) (xs : List ℕ) → All P xs → All P (take n xs)
All-take P zero xs h = tt
All-take P (suc n) [] h = tt
All-take P (suc n) (x ∷ xs) h = (h.0, All-take P n xs h.1)

pub All-append : (P : ℕ → Type 0) (xs ys : List ℕ) → All P xs → All P ys → All P (xs ++ ys)
All-append P [] ys h k = k
All-append P (x ∷ xs) ys h k = (h.0, All-append P xs ys h.1 k)

pub All-anything : (xs : List ℕ) → All (λ x. Unit) xs
All-anything [] = tt
All-anything (x ∷ xs) = (tt, All-anything xs)

pub All-front : (P : ℕ → Type 0) (xs ys : List ℕ) → All P (xs ++ ys) → All P xs
All-front P [] ys h = tt
All-front P (x ∷ xs) ys h = (h.0, All-front P xs ys h.1)

pub All-back : (P : ℕ → Type 0) (xs ys : List ℕ) → All P (xs ++ ys) → All P ys
All-back P [] ys h = h
All-back P (x ∷ xs) ys h = All-back P xs ys h.1
