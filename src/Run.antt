-- ===== src/Run.antt =====
-- How a call ends: it returns a value, it reads or writes outside of its memory, it never returns, or it
-- ends the process by `exit`.
use mudit_m.Base.{◌≡◌, refl, Option, none, some}

-- Which memory it writes or reads outside of: that of an output buffer, where a message has no space
-- in it, or any other.
pub data Fault : Type 0 where
  no_space : Fault
  stray : Fault

pub data Run {ℓ} (A : Type ℓ) : Type ℓ where
  ok : A → Run A
  overrun : Fault → Run A
  spins : Run A
  exits : Run A

infixl 5 ◌>>=◌ ◌>>◌
abbrev pub ◌>>=◌ {ℓ κ} : {A : Type ℓ} {B : Type κ} → Run A → (A → Run B) → Run B
ok a >>= f = f a
overrun x >>= f = overrun x
spins >>= f = spins
exits >>= f = exits

abbrev pub ◌>>◌ {ℓ κ} : {A : Type ℓ} {B : Type κ} → Run A → Run B → Run B
m >> k = m >>= λ _. k

-- A use of a pointer: `none` is one past the block.
abbrev pub in_bounds {ℓ} : {A : Type ℓ} → Fault → Option A → Run A
in_bounds x none = overrun x
in_bounds x (some a) = ok a

-- What holds of the value that a call returns. A call that does not return meets no such demand.
abbrev pub Returns {ℓ} : {A : Type ℓ} → (A → Type 0) → Run A → Type 0
Returns P (ok a) = P a
Returns P (overrun x) = ⊥
Returns P spins = ⊥
Returns P exits = ⊥

module _ {ℓ κ} {A : Type ℓ} {B : Type κ} where
  -- A chain of calls, step by step.
  pub Returns-bind :
      (P : A → Type 0) (Q : B → Type 0) (m : Run A) (f : A → Run B)
      → Returns P m
      → ((a : A) → P a → Returns Q (f a))
      → Returns Q (m >>= f)
  Returns-bind P Q (ok a) f h k = k a h
  Returns-bind P Q (overrun x) f h k = absurd h
  Returns-bind P Q spins f h k = absurd h
  Returns-bind P Q exits f h k = absurd h

module _ {ℓ} {A : Type ℓ} where
  pub Returns-weaken :
      (P Q : A → Type 0) (m : Run A) → Returns P m → ((a : A) → P a → Q a) → Returns Q m
  Returns-weaken P Q (ok a) h k = k a h
  Returns-weaken P Q (overrun x) h k = h
  Returns-weaken P Q spins h k = h
  Returns-weaken P Q exits h k = h

  -- The value that was returned.
  pub Returns-value : (P : A → Type 0) (m : Run A) → Returns P m → (a : A) × (m ≡ ok a) × P a
  Returns-value P (ok a) h = (a, refl, h)
  Returns-value P (overrun x) h = absurd h
  Returns-value P spins h = absurd h
  Returns-value P exits h = absurd h

-- As `Returns`, where the call may also find no space for a message in an output buffer. It meets no
-- other error of memory.
abbrev pub Bounded {ℓ} : {A : Type ℓ} → (A → Type 0) → Run A → Type 0
Bounded P (ok a) = P a
Bounded P (overrun no_space) = Unit
Bounded P (overrun stray) = ⊥
Bounded P spins = ⊥
Bounded P exits = ⊥

module _ {ℓ κ} {A : Type ℓ} {B : Type κ} where
  pub Bounded-bind :
      (P : A → Type 0) (Q : B → Type 0) (m : Run A) (f : A → Run B)
      → Bounded P m
      → ((a : A) → P a → Bounded Q (f a))
      → Bounded Q (m >>= f)
  Bounded-bind P Q (ok a) f h k = k a h
  Bounded-bind P Q (overrun no_space) f h k = tt
  Bounded-bind P Q (overrun stray) f h k = absurd h
  Bounded-bind P Q spins f h k = absurd h
  Bounded-bind P Q exits f h k = absurd h

  -- The same, where the first call is known to return.
  pub Bounded-call :
      (P : A → Type 0) (Q : B → Type 0) (m : Run A) (f : A → Run B)
      → Returns P m
      → ((a : A) → P a → Bounded Q (f a))
      → Bounded Q (m >>= f)
  Bounded-call P Q (ok a) f h k = k a h
  Bounded-call P Q (overrun no_space) f h k = tt
  Bounded-call P Q (overrun stray) f h k = absurd h
  Bounded-call P Q spins f h k = absurd h
  Bounded-call P Q exits f h k = absurd h

module _ {ℓ} {A : Type ℓ} where
  pub Bounded-weaken :
      (P Q : A → Type 0) (m : Run A) → Bounded P m → ((a : A) → P a → Q a) → Bounded Q m
  Bounded-weaken P Q (ok a) h k = k a h
  Bounded-weaken P Q (overrun no_space) h k = tt
  Bounded-weaken P Q (overrun stray) h k = h
  Bounded-weaken P Q spins h k = absurd h
  Bounded-weaken P Q exits h k = absurd h

module _ {ℓ} {A : Type ℓ} where
  -- Two demands on the same call.
  pub Returns-both :
      (P Q : A → Type 0) (m : Run A) → Returns P m → Returns Q m → Returns (λ a. P a × Q a) m
  Returns-both P Q (ok a) h k = (h, k)
  Returns-both P Q (overrun x) h k = h
  Returns-both P Q spins h k = h
  Returns-both P Q exits h k = h

-- As `Returns`, where the one thing that the call may not do instead is to find no space for a message
-- in an output buffer.
abbrev pub Fits {ℓ} : {A : Type ℓ} → (A → Type 0) → Run A → Type 0
Fits P (ok a) = P a
Fits P (overrun no_space) = ⊥
Fits P (overrun stray) = Unit
Fits P spins = Unit
Fits P exits = Unit

module _ {ℓ κ} {A : Type ℓ} {B : Type κ} where
  pub Fits-bind :
      (P : A → Type 0) (Q : B → Type 0) (m : Run A) (f : A → Run B)
      → Fits P m
      → ((a : A) → P a → Fits Q (f a))
      → Fits Q (m >>= f)
  Fits-bind P Q (ok a) f h k = k a h
  Fits-bind P Q (overrun no_space) f h k = absurd h
  Fits-bind P Q (overrun stray) f h k = tt
  Fits-bind P Q spins f h k = tt
  Fits-bind P Q exits f h k = tt

module _ {ℓ} {A : Type ℓ} where
  pub Fits-weaken : (P Q : A → Type 0) (m : Run A) → Fits P m → ((a : A) → P a → Q a) → Fits Q m
  Fits-weaken P Q (ok a) h k = k a h
  Fits-weaken P Q (overrun no_space) h k = h
  Fits-weaken P Q (overrun stray) h k = tt
  Fits-weaken P Q spins h k = tt
  Fits-weaken P Q exits h k = tt

  pub Returns-Fits : (P : A → Type 0) (m : Run A) → Returns P m → Fits P m
  Returns-Fits P (ok a) h = h
  Returns-Fits P (overrun x) h = absurd h
  Returns-Fits P spins h = tt
  Returns-Fits P exits h = tt

  -- A call that ends and that never overruns returns.
  pub Returns-Bounded : (P : A → Type 0) (m : Run A) → Returns P m → Bounded P m
  Returns-Bounded P (ok a) h = h
  Returns-Bounded P (overrun no_space) h = tt
  Returns-Bounded P (overrun stray) h = h
  Returns-Bounded P spins h = h
  Returns-Bounded P exits h = h

  pub Bounded-Fits :
      (P Q : A → Type 0) (m : Run A) → Bounded P m → Fits Q m → Returns (λ a. P a × Q a) m
  Bounded-Fits P Q (ok a) h k = (h, k)
  Bounded-Fits P Q (overrun no_space) h k = k
  Bounded-Fits P Q (overrun stray) h k = h
  Bounded-Fits P Q spins h k = h
  Bounded-Fits P Q exits h k = h

-- As `Bounded`, where the call may also end the process: it does not go on for ever, and meets no other
-- error of memory.
abbrev pub Stops {ℓ} : {A : Type ℓ} → (A → Type 0) → Run A → Type 0
Stops P (ok a) = P a
Stops P (overrun no_space) = Unit
Stops P (overrun stray) = ⊥
Stops P spins = ⊥
Stops P exits = Unit

module _ {ℓ κ} {A : Type ℓ} {B : Type κ} where
  pub Stops-bind :
      (P : A → Type 0) (Q : B → Type 0) (m : Run A) (f : A → Run B)
      → Stops P m
      → ((a : A) → P a → Stops Q (f a))
      → Stops Q (m >>= f)
  Stops-bind P Q (ok a) f h k = k a h
  Stops-bind P Q (overrun no_space) f h k = tt
  Stops-bind P Q (overrun stray) f h k = absurd h
  Stops-bind P Q spins f h k = absurd h
  Stops-bind P Q exits f h k = tt

module _ {ℓ} {A : Type ℓ} where
  pub Stops-weaken : (P Q : A → Type 0) (m : Run A) → Stops P m → ((a : A) → P a → Q a) → Stops Q m
  Stops-weaken P Q (ok a) h k = k a h
  Stops-weaken P Q (overrun no_space) h k = tt
  Stops-weaken P Q (overrun stray) h k = h
  Stops-weaken P Q spins h k = h
  Stops-weaken P Q exits h k = tt

  pub Bounded-Stops : (P : A → Type 0) (m : Run A) → Bounded P m → Stops P m
  Bounded-Stops P (ok a) h = h
  Bounded-Stops P (overrun no_space) h = tt
  Bounded-Stops P (overrun stray) h = h
  Bounded-Stops P spins h = h
  Bounded-Stops P exits h = tt

  pub Returns-Stops : (P : A → Type 0) (m : Run A) → Returns P m → Stops P m
  Returns-Stops P (ok a) h = h
  Returns-Stops P (overrun no_space) h = tt
  Returns-Stops P (overrun stray) h = h
  Returns-Stops P spins h = h
  Returns-Stops P exits h = tt

-- What holds of the value if there is one; a call that does not return meets every such demand.
abbrev pub Partial {ℓ} : {A : Type ℓ} → (A → Type 0) → Run A → Type 0
Partial P (ok a) = P a
Partial P (overrun x) = Unit
Partial P spins = Unit
Partial P exits = Unit

module _ {ℓ κ} {A : Type ℓ} {B : Type κ} where
  pub Partial-bind :
      (P : A → Type 0) (Q : B → Type 0) (m : Run A) (f : A → Run B)
      → Partial P m
      → ((a : A) → P a → Partial Q (f a))
      → Partial Q (m >>= f)
  Partial-bind P Q (ok a) f h k = k a h
  Partial-bind P Q (overrun x) f h k = tt
  Partial-bind P Q spins f h k = tt
  Partial-bind P Q exits f h k = tt

module _ {ℓ} {A : Type ℓ} where
  pub Partial-Returns :
      (P Q : A → Type 0) (m : Run A) → Partial P m → Returns Q m → Returns (λ a. P a × Q a) m
  Partial-Returns P Q (ok a) h k = (h, k)
  Partial-Returns P Q (overrun x) h k = k
  Partial-Returns P Q spins h k = k
  Partial-Returns P Q exits h k = k
