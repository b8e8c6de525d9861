-- ===== src/Scheduler/Appending.antt =====
-- What `subscribe` does with the list of nodes.
use dread.Base.{
  ℕ, zero, suc, ◌<◌, ◌≡◌, ◌≢◌, refl, sym, ap, subst, ◌∙◌, Bool, true, false, ◌||◌, Option, none,
  some, List, [], ◌∷◌, ◌++◌, ◌==◌, if◌then◌else◌, length, arith, Bool-cases, inl, inr,
}
use dread.Scheduler.{Store, Scheduler, set_next, append_from, with_store, subscribe, subscribe_at}
use dread.Scheduler.Chain.{Chain, NotIn, Distinct, set_next_self, set_next_other}

-- Whether a node that is not the last has the function.
unfoldable pub clashes : Store → ℕ → List ℕ → Bool
clashes h f [] = false
clashes h f (x ∷ []) = false
clashes h f (x ∷ y ∷ ys) = ((h x).subscription == f) || clashes h f (y ∷ ys)

-- The list that `subscribe` leaves for a new node.
pub with_new : Store → ℕ → List ℕ → List ℕ
with_new h p xs = if clashes h (h p).subscription xs then xs else xs ++ (p ∷ [])

-- Nodes that are neither in the list nor the new one are as before.
pub Apart : Store → Store → ℕ → List ℕ → Type 0
Apart h h' p xs = (j : ℕ) → NotIn j xs → j ≢ p → h' j ≡ h j

pub Appends : Store → ℕ → ℕ → List ℕ → Option Store → Type 0
unfolding with_new Apart
Appends h p it xs o =
    (h' : Store) × (o ≡ some h')
    × Chain h' (some it) (with_new h p (it ∷ xs))
    × Apart h h' p (it ∷ xs)

append-last :
    (h : Store) (p it : ℕ)
    → p ≢ it
    → Appends h p it [] (some (set_next (set_next h it (some p)) p none))
unfolding Appends Chain with_new Apart NotIn clashes
append-last h p it ne =
    let h1 = set_next h it (some p) in
    (
      set_next h1 p none,
      refl,
      (
        refl,
        (
          ap (λ r. r.next)
              (set_next_other h1 p it none (λ q. ne (sym q)) ∙ set_next_self h it (some p)),
          ap (λ r. r.next) (set_next_self h1 p none),
        ),
      ),
      λ j (nj, u) np. set_next_other h1 p j none np ∙ set_next_other h it j (some p) nj,
    )

Chain-if :
    (b : Bool) (h : Store) (it : ℕ) (xs ys : List ℕ)
    → Chain h (h it).next (if b then xs else ys)
    → Chain h (some it) (if b then it ∷ xs else it ∷ ys)
unfolding Chain
Chain-if true h it xs ys c = (refl, c)
Chain-if false h it xs ys c = (refl, c)

append-step :
    (h : Store) (p it y : ℕ) (ys : List ℕ) (rest : Option Store)
    → (h it).next ≡ some y
    → Chain h (h y).next ys
    → p ≢ it
    → it ≢ y
    → NotIn it ys
    → Appends h p y ys rest
    → Appends h p it (y ∷ ys) (if (h it).subscription == (h p).subscription then some h else rest)
unfolding Appends Chain with_new Apart NotIn clashes
append-step h p it y ys rest e c ne di d (h', r, c', f) =
    elim (Bool-cases ((h it).subscription == (h p).subscription)) [
      | inl t ↦ rw t (h, refl, (refl, (e, c)), λ j nj np. refl)
      | inr t ↦ rw t (
        h',
        r,
        Chain-if (clashes h (h p).subscription (y ∷ ys)) h' it (y ∷ ys) ((y ∷ ys) ++ (p ∷ [])) (
            subst (λ o. Chain h' o (with_new h p (y ∷ ys)))
              (sym (ap (λ r. r.next) (f it (di, d) (λ q. ne (sym q))) ∙ e)) c'),
        λ j nj np. f j nj.1 np,
      )
    ]

append_from-Appends :
    (fuel : ℕ) (h : Store) (p it : ℕ) (o : Option ℕ) (xs : List ℕ)
    → Chain h o xs
    → (h it).next ≡ o
    → NotIn p (it ∷ xs)
    → Distinct (it ∷ xs)
    → length xs < fuel
    → Appends h p it xs (append_from fuel h p it o)
unfolding append_from Chain NotIn Distinct
append_from-Appends zero h p it o xs c e a d l = absurd (omega arith)
append_from-Appends (suc fuel) h p it o [] c e (ne, a) d l = rw c (append-last h p it ne)
append_from-Appends (suc fuel) h p it o (y ∷ ys) (ey, c) e (ne, a) ((di, d), dy) l = rw ey (
    append-step h p it y ys (append_from fuel h p y (h y).next) (e ∙ ey) c ne di d
      (append_from-Appends fuel h p y (h y).next ys c refl a dy (omega arith)))

with_store-Chain :
    (s : Scheduler) (x p : ℕ) (xs : List ℕ) (o : Option Store)
    → s.subscriptions ≡ some x
    → Appends s.store p x xs o
    → (s' : Scheduler) × (with_store s o ≡ some s')
      × Chain s'.store s'.subscriptions (with_new s.store p (x ∷ xs))
unfolding Appends
with_store-Chain s x p xs o e (h', r, c, f) = (
  record s { store = h' },
  ap (with_store s) r,
  subst (λ q. Chain h' q (with_new s.store p (x ∷ xs))) (sym e) c,
)

subscribe_at-Chain :
    (fuel : ℕ) (s : Scheduler) (p : ℕ) (o : Option ℕ) (xs : List ℕ)
    → s.subscriptions ≡ o
    → Chain s.store o xs
    → NotIn p xs
    → Distinct xs
    → length xs < suc fuel
    → (s' : Scheduler) × (subscribe_at fuel s p o ≡ some s')
      × Chain s'.store s'.subscriptions (with_new s.store p xs)
unfolding subscribe_at Chain with_new clashes NotIn Distinct
subscribe_at-Chain fuel s p o [] q c a d l =
    let h' = set_next s.store p none in
    rw c (
      record s { subscriptions = some p; store = h' },
      refl,
      (refl, ap (λ r. r.next) (set_next_self s.store p none)),
    )
subscribe_at-Chain fuel s p o (x ∷ xs) q (e, c) a d l = rw e (
    with_store-Chain s x p xs (append_from fuel s.store p x (s.store x).next) (q ∙ e)
      (append_from-Appends fuel s.store p x (s.store x).next xs c refl a d (omega arith)))

-- If the nodes of the list differ from each other and from the new one, and the fuel is at least their
-- number, `subscribe` returns, and the list of the scheduler is then the one it was, with the new node at its
-- end, unless a node that is not the last has the new node's function: then the list is unchanged.
pub subscribe-Chain :
    (fuel : ℕ) (s : Scheduler) (p : ℕ) (xs : List ℕ)
    → Chain s.store s.subscriptions xs
    → NotIn p xs
    → Distinct xs
    → length xs < suc fuel
    → (s' : Scheduler) × (subscribe fuel s p ≡ some s')
      × Chain s'.store s'.subscriptions (with_new s.store p xs)
unfolding subscribe
subscribe-Chain fuel s p xs c a d l = subscribe_at-Chain fuel s p s.subscriptions xs refl c a d l
