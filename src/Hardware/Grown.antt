-- ===== src/Hardware/Grown.antt =====
-- A trace only grows: what was done before stands in front of what is done now.
use dread.Base.{
  ◌≡◌, refl, sym, ap, ◌∙◌, ℕ, Bool, true, false, Option, none, some, List, [], ◌∷◌, ◌++◌,
  append_assoc, append-nil, if◌then◌else◌,
}
use dread.Hardware.{World, Port, Effect, pop_byte, write}
use dread.Hardware.Output.{println, write_each, bytes_to, trace-write_each}
use dread.Hardware.Monad.{M, bind_run}
use dread.Hardware.Returns.{Ends, Ends-then}

pub record Grown (w w' : World) : Type 0 where
  pub more : List Effect
  pub grown : w'.trace ≡ w.trace ++ more

pub Grown-same : (w w' : World) → w'.trace ≡ w.trace → Grown w w'
Grown-same w w' e = record { more = []; grown = e ∙ sym (append-nil w.trace) }

infixl 5 ◌after◌
pub ◌after◌ : {u v w : World} → Grown v w → Grown u v → Grown u w
◌after◌ {u} b a = record {
  more = a.more ++ b.more;
  grown = b.grown ∙ ap (λ t. t ++ b.more) a.grown ∙ append_assoc u.trace a.more b.more;
}

pub Grown-if :
    {u : World} (b : Bool) (x y : World) → Grown u x → Grown u y → Grown u (if b then x else y)
Grown-if true x y h h' = h
Grown-if false x y h h' = h'

pub write-Grown : (p : Port) (b : ℕ) (w : World) → Grown w (write p b w)
write-Grown p b w = record { more = _; grown = refl }

pub Grown-println : (p : Port) (w : World) → Grown w (println p w)
Grown-println p w = write-Grown p 10 (write p 13 w) after write-Grown p 13 w

pub write_each-Grown : (p : Port) (bs : List ℕ) (w : World) → Grown w (write_each p bs w)
write_each-Grown p bs w = record { more = bytes_to p bs; grown = trace-write_each p bs w }

pub pop_byte-Grown : (p : Port) (w : World) (bs : List ℕ) → Grown w (pop_byte p w bs).1
pop_byte-Grown p w [] = Grown-same w w refl
pop_byte-Grown p w (b ∷ bs) = record { more = _; grown = refl }

-- A run that keeps what was done.
unfoldable pub Grows : {A : Type 0} → World → Option (A × World) → Type 0
Grows w o = Ends (λ a w'. Grown w w') o

pub Grows-later :
    {A : Type 0} (w v : World) (o : Option (A × World)) → Grown w v → Grows v o → Grows w o
unfolding Grows Ends
Grows-later w v none g x = tt
Grows-later w v (some (a, u)) g x = x after g

pub Grows-then :
    {A B : Type 0} (w : World) (o : Option (A × World)) (k : A → M B)
    → Grows w o
    → ((a : A) (v : World) → Grows v (k a v))
    → Grows w (bind_run o k)
unfolding Grows Ends
Grows-then w o k h further =
    Ends-then (λ a v. Grown w v) (λ b v. Grown w v) o k h
      λ a v g. Grows-later w v (k a v) g (further a v)
