-- ===== src/Hardware/Monad.antt =====
-- Code that reads and changes a world and may run out of fuel, or run into a fault, as a monad.
use dread.Base.{Option, none, some, Bool, true, false}
use dread.Hardware.{World}

abbrev pub M : Type 0 → Type 0
M A = World → Option (A × World)

abbrev pub bind_run : {A B : Type 0} → Option (A × World) → (A → M B) → Option (B × World)
bind_run none f = none
bind_run (some (a, w)) f = f a w

infixl 5 ◌>>=◌ ◌>>◌
abbrev pub ◌>>=◌ : {A B : Type 0} → M A → (A → M B) → M B
◌>>=◌ m f w = bind_run (m w) f

abbrev pub ◌>>◌ : {B : Type 0} → M (Unit {0}) → M B → M B
◌>>◌ m k = m >>= λ _. k

abbrev pub pure : {A : Type 0} → A → M A
pure a w = some (a, w)

-- A change of the world that cannot fail, and a reading of it.
abbrev pub run : (World → World) → M (Unit {0})
run f w = some (tt, f w)

abbrev pub ask : {A : Type 0} → (World → A × World) → M A
ask f w = some (f w)

abbrev pub fail : {A : Type 0} → M A
fail w = none

-- An optional step; the other branch does nothing.
abbrev pub when : Bool → M (Unit {0}) → M (Unit {0})
when true m = m
when false m = pure tt
