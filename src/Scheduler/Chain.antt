-- ===== src/Scheduler/Chain.antt =====
-- The list of nodes that a pointer leads to, and what a round of calls does with it.
use dread.Base.{
  ℕ, zero, suc, ◌+◌, ◌%◌, ◌<◌, ◌≡◌, ◌≢◌, refl, sym, ap, subst, Bool, true, false, Option, none,
  some, List, [], ◌∷◌, ◌==◌, u16, if◌then◌else◌, length, arith, ==_true, ==_false,
}
use dread.Scheduler.{Store, Scheduler, set_next, call_from, call_subscriptions}

-- From the pointer `o`, the nodes `xs` and then NULL.
unfoldable pub Chain : Store → Option ℕ → List ℕ → Type 0
Chain h o [] = o ≡ none
Chain h o (x ∷ xs) = (o ≡ some x) × Chain h (h x).next xs

-- The node is none of the list's, and no node comes twice.
unfoldable pub NotIn : ℕ → List ℕ → Type 0
NotIn p [] = Unit {0}
NotIn p (x ∷ xs) = (p ≢ x) × NotIn p xs

unfoldable pub Distinct : List ℕ → Type 0
unfolding NotIn
Distinct [] = Unit {0}
Distinct (x ∷ xs) = NotIn x xs × Distinct xs

-- The functions of the nodes whose timeout divides the tick.
unfoldable pub due : Store → ℕ → List ℕ → List ℕ
due h tick [] = []
due h tick (x ∷ xs) =
    if tick % (h x).timeout == 0 then (h x).subscription ∷ due h tick xs else due h tick xs

-- No timeout of the list is 0.
unfoldable pub Divides : Store → List ℕ → Type 0
Divides h [] = Unit {0}
Divides h (x ∷ xs) = ((h x).timeout ≢ 0) × Divides h xs

if-some :
    (b : Bool) (f : ℕ) (fs : List ℕ)
    → (if b then some (f ∷ fs) else some fs) ≡ some (if b then f ∷ fs else fs)
if-some true f fs = refl
if-some false f fs = refl

call_from-due :
    (fuel : ℕ) (h : Store) (tick : ℕ) (o : Option ℕ) (xs : List ℕ)
    → Chain h o xs
    → Divides h xs
    → length xs < suc fuel
    → call_from fuel h tick o ≡ some (due h tick xs)
unfolding Chain Divides due call_from
call_from-due fuel h tick o [] c d l = rw c refl
call_from-due zero h tick o (x ∷ xs) c d l = absurd (omega arith)
call_from-due (suc fuel) h tick o (x ∷ xs) (e, c) (nz, d) l =
    rw (e, call_from-due fuel h tick (h x).next xs c d (omega arith), ==_false nz)
      (if-some (tick % (h x).timeout == 0) ((h x).subscription) (due h tick xs))

-- If the list of the scheduler has the nodes `xs`, no timeout is 0 and the fuel is at least their
-- number, a tick of the timer calls,
-- in the list's order, the functions of exactly the nodes whose timeout divides the new 16-bit tick.
pub call_subscriptions-due :
    (fuel : ℕ) (s : Scheduler) (xs : List ℕ)
    → Chain s.store s.subscriptions xs
    → Divides s.store xs
    → length xs < suc fuel
    → call_subscriptions fuel s
      ≡ (some (due s.store (u16 (s.tick + 1)) xs), record s { tick = u16 (s.tick + 1) })
unfolding call_subscriptions
call_subscriptions-due fuel s xs c d l =
    ap (λ o. (o, record s { tick = u16 (s.tick + 1) }))
      (call_from-due fuel s.store (u16 (s.tick + 1)) s.subscriptions xs c d l)

pub set_next_self :
    (h : Store) (p : ℕ) (n : Option ℕ) → set_next h p n p ≡ record (h p) { next = n }
set_next_self h p n =
    let e : p ≡ p = refl in ap (λ b. if b then record (h p) { next = n } else h p) (==_true e)

pub set_next_other : (h : Store) (p q : ℕ) (n : Option ℕ) → q ≢ p → set_next h p n q ≡ h q
set_next_other h p q n ne = ap (λ b. if b then record (h p) { next = n } else h q) (==_false ne)

-- A change of the `next` of a node that the list does not have leaves the list as it is.
pub Chain-set_next :
    (h : Store) (o : Option ℕ) (xs : List ℕ) (p : ℕ) (n : Option ℕ)
    → NotIn p xs
    → Chain h o xs
    → Chain (set_next h p n) o xs
unfolding Chain NotIn
Chain-set_next h o [] p n a c = c
Chain-set_next h o (x ∷ xs) p n (ne, a) (e, c) = (
  e,
  subst (λ r. Chain (set_next h p n) r.next xs) (sym (set_next_other h p x n (λ q. ne (sym q))))
      (Chain-set_next h (h x).next xs p n a c),
)
