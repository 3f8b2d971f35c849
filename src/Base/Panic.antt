-- ===== src/Base/Panic.antt =====
-- Kernel code that may call `panic` (console.c), which never returns; and the critical sections of
-- one CPU: whether it holds a lock. Spinlock shows that `acquire` and `release` do this.
use mathlib.Core.Path.{◌≡◌, refl}
use mathlib.Core.Bool.{Bool, true, false}

pub data Outcome {ℓ} (A : Type ℓ) : Type ℓ where
  ok : A → Outcome A
  panic : Outcome A

module _ {ℓ κ} {A : Type ℓ} {B : Type κ} where
  -- the rest of the code runs only if the first part does not panic
  infixl 5 ◌>>=◌
  abbrev pub ◌>>=◌ : Outcome A → (A → Outcome B) → Outcome B
  panic >>= rest = panic
  ok a >>= rest = rest a

  -- where a sequence does not panic, neither does its first part
  pub bind_inv :
      (first : Outcome A) (rest : A → Outcome B) {last : B}
      → (first >>= rest) ≡ ok last
      → (mid : A) × (first ≡ ok mid) × (rest mid ≡ ok last)
  bind_inv panic rest e = cc
  bind_inv (ok a) rest e = (a, refl, e)

-- The new value of "this CPU holds the lock".
abbrev pub lock : Bool → Outcome Bool
lock true = panic
lock false = ok true

abbrev pub unlock : Bool → Outcome Bool
unlock true = ok false
unlock false = panic
