-- ===== src/Hardware/Returns.antt =====
-- What is known of the value of a run, if there is one.
use dread.Base.{◌≡◌, refl, subst, Bool, true, false, Option, none, some, if◌then◌else◌}
use dread.Hardware.{World}
use dread.Hardware.Monad.{M, bind_run}

-- A property of the value of a run, if it returns.
unfoldable pub Returns : {A : Type 0} → (A → Type 0) → Option (A × World) → Type 0
Returns P none = Unit {0}
Returns P (some (a, w)) = P a

pub Returns-bind_run :
    {A B : Type 0} (P : B → Type 0) (o : Option (A × World)) (k : A → M B)
    → ((a : A) (w : World) → Returns P (k a w))
    → Returns P (bind_run o k)
unfolding Returns
Returns-bind_run P none k h = tt
Returns-bind_run P (some (a, w)) k h = h a w

pub Returns-then :
    {A B : Type 0} (Q : A → Type 0) (P : B → Type 0) (o : Option (A × World)) (k : A → M B)
    → Returns Q o
    → ((a : A) (w : World) → Q a → Returns P (k a w))
    → Returns P (bind_run o k)
unfolding Returns
Returns-then Q P none k q h = tt
Returns-then Q P (some (a, w)) k q h = h a w q

pub Returns-if :
    {A : Type 0} (P : A → Type 0) (b : Bool) (o o' : Option (A × World))
    → (b ≡ true → Returns P o)
    → (b ≡ false → Returns P o')
    → Returns P (if b then o else o')
Returns-if P true o o' h h' = h refl
Returns-if P false o o' h h' = h' refl

pub Returns-value :
    {A : Type 0} (P : A → Type 0) (o : Option (A × World)) (a : A) (w : World)
    → Returns P o
    → o ≡ some (a, w)
    → P a
unfolding Returns
Returns-value P o a w r e = subst (Returns P) e r

pub Returns-of :
    {A : Type 0} (P : A → Type 0) (o : Option (A × World))
    → ((a : A) (w : World) → o ≡ some (a, w) → P a)
    → Returns P o
unfolding Returns
Returns-of P none h = tt
Returns-of P (some (a, w)) h = h a w refl

-- The same of the value and the world after it.
unfoldable pub Ends : {A : Type 0} → (A → World → Type 0) → Option (A × World) → Type 0
Ends P none = Unit {0}
Ends P (some (a, w)) = P a w

pub Ends-then :
    {A B : Type 0} (Q : A → World → Type 0) (P : B → World → Type 0) (o : Option (A × World))
    (k : A → M B)
    → Ends Q o
    → ((a : A) (w : World) → Q a w → Ends P (k a w))
    → Ends P (bind_run o k)
unfolding Ends
Ends-then Q P none k q h = tt
Ends-then Q P (some (a, w)) k q h = h a w q

pub Ends-if :
    {A : Type 0} (P : A → World → Type 0) (b : Bool) (o o' : Option (A × World))
    → (b ≡ true → Ends P o)
    → (b ≡ false → Ends P o')
    → Ends P (if b then o else o')
Ends-if P true o o' h h' = h refl
Ends-if P false o o' h h' = h' refl

pub Ends-value :
    {A : Type 0} (P : A → World → Type 0) (o : Option (A × World)) (a : A) (w : World)
    → Ends P o
    → o ≡ some (a, w)
    → P a w
unfolding Ends
Ends-value P o a w r e = subst (Ends P) e r

pub Ends-anything : {A : Type 0} (o : Option (A × World)) → Ends (λ a w. Unit {0}) o
unfolding Ends
Ends-anything none = tt
Ends-anything (some (a, w)) = tt

pub Ends-map :
    {A : Type 0} (P Q : A → World → Type 0) (o : Option (A × World))
    → Ends P o
    → ((a : A) (w : World) → P a w → Q a w)
    → Ends Q o
unfolding Ends
Ends-map P Q none p h = tt
Ends-map P Q (some (a, w)) p h = h a w p
