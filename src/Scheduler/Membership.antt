-- ===== src/Scheduler/Membership.antt =====
-- What `unsubscribe` does with the list of nodes.
use dread.Base.{
  ℕ, zero, suc, ◌<◌, ◌≡◌, ◌≢◌, refl, sym, ap, subst, ◌∙◌, Option, none, some, List, [], ◌∷◌, ◌==◌,
  if◌then◌else◌, length, arith, ==_true, ==_false, ℕ_discrete,
}
use dread.Scheduler.{
  Store, Scheduler, set_next, remove_from, with_head, unsubscribe, unsubscribe_at,
}
use dread.Scheduler.Chain.{Chain, NotIn, Distinct, set_next_self, set_next_other, Chain-set_next}

-- The list without a node.
unfoldable pub without : ℕ → List ℕ → List ℕ
without p [] = []
without p (x ∷ xs) = if x == p then without p xs else x ∷ without p xs

-- What the loop leaves after it passed the node `i`: the rest of the list without `p`, and the
-- nodes that are not on the way as before.
pub Removes : Store → Option ℕ → ℕ → ℕ → List ℕ → Option (Option ℕ × Store) → Type 0
Removes h head p i xs o =
    (h' : Store) × (o ≡ some (head, h'))
    × Chain h' (h' i).next (without p xs)
    × ((j : ℕ) → NotIn j (i ∷ xs) → h' j ≡ h j)

module _ (h : Store) (head : Option ℕ) (p i x : ℕ) (xs : List ℕ) where
  unlink :
      (o : Option (Option ℕ × Store))
      → x ≡ p
      → Removes (set_next h i (h x).next) head p i xs o
      → Removes h head p i (x ∷ xs) o
  unfolding Removes without NotIn
  unlink o e (h', r, c, f) =
      (h', r, rw (==_true e) c, λ j (nj, a). f j (nj, a.1) ∙ set_next_other h i j (h x).next nj)

  pass :
      (o : Option (Option ℕ × Store))
      → x ≢ p
      → (h i).next ≡ some x
      → NotIn i (x ∷ xs)
      → Removes h head p x xs o
      → Removes h head p i (x ∷ xs) o
  unfolding Removes without NotIn Chain
  pass o e n a (h', r, c, f) =
      (h', r, rw (==_false e) (ap (λ q. q.next) (f i a) ∙ n, c), λ j (nj, b). f j b)

nothing_left :
    (h : Store) (head : Option ℕ) (p i : ℕ)
    → (h i).next ≡ none
    → Removes h head p i [] (some (head, h))
unfolding Removes without Chain
nothing_left h head p i e = (h, refl, e, λ j a. refl)

Chain-unlinked :
    (h : Store) (i x : ℕ) (xs : List ℕ)
    → NotIn i xs
    → Chain h (h x).next xs
    → Chain (set_next h i (h x).next) (set_next h i (h x).next i).next xs
Chain-unlinked h i x xs ni c =
    subst (λ q. Chain (set_next h i (h x).next) q xs)
      (sym (ap (λ r. r.next) (set_next_self h i (h x).next)))
      (Chain-set_next h (h x).next xs i (h x).next ni c)

remove_from-Removes :
    (fuel : ℕ) (h : Store) (head : Option ℕ) (p i : ℕ) (o : Option ℕ) (xs : List ℕ)
    → Chain h o xs
    → (h i).next ≡ o
    → Distinct (i ∷ xs)
    → length xs < fuel
    → Removes h head p i xs (remove_from fuel h head p (some i) o)
unfolding remove_from Chain NotIn Distinct
remove_from-Removes zero h head p i o xs c e d l = absurd (omega arith)
remove_from-Removes (suc fuel) h head p i o [] c e d l = rw c (nothing_left h head p i (e ∙ c))
remove_from-Removes (suc fuel) h head p i o (x ∷ xs) (ex, c) e ((ne, ni), (nx, d)) l =
    rw ex (elim (ℕ_discrete x p) [
      | yes same ↦ rw (==_true same) (
          unlink h head p i x xs _ same (
            remove_from-Removes fuel (set_next h i (h x).next) head p i
              (set_next h i (h x).next i).next xs (Chain-unlinked h i x xs ni c) refl (ni, d)
              (omega arith)))
      | no other ↦ rw (==_false other) (
          pass h head p i x xs _ other (e ∙ ex) (ne, ni)
            (remove_from-Removes fuel h head p x (h x).next xs c refl (nx, d) (omega arith)))
    ])

-- The same while the loop stands at the local node.
Heads : ℕ → List ℕ → Option (Option ℕ × Store) → Type 0
Heads p xs o =
    (head' : Option ℕ) × (h' : Store) × (o ≡ some (head', h')) × Chain h' head' (without p xs)

kept :
    (h : Store) (x p : ℕ) (xs : List ℕ) (o : Option (Option ℕ × Store))
    → Removes h (some x) p x xs o
    → (head' : Option ℕ) × (h' : Store) × (o ≡ some (head', h')) × Chain h' head' (x ∷ without p xs)
unfolding Removes Chain
kept h x p xs o (h', r, c, f) = (some x, h', r, (refl, c))

remove_from-Heads :
    (fuel : ℕ) (h : Store) (head : Option ℕ) (p : ℕ) (xs : List ℕ)
    → Chain h head xs
    → Distinct xs
    → length xs < fuel
    → Heads p xs (remove_from fuel h head p none head)
unfolding remove_from Chain Distinct Heads without
remove_from-Heads zero h head p xs c d l = absurd (omega arith)
remove_from-Heads (suc fuel) h head p [] c d l = rw c (none, h, refl, refl)
remove_from-Heads (suc fuel) h head p (x ∷ xs) (e, c) (nx, d) l = rw e (elim (ℕ_discrete x p) [
  | yes same ↦ rw (==_true same) (remove_from-Heads fuel h (h x).next p xs c d (omega arith))
  | no other ↦ rw (==_false other) (
      kept h x p xs _
        (remove_from-Removes fuel h (some x) p x (h x).next xs c refl (nx, d) (omega arith)))
])

of_Heads :
    (s : Scheduler) (p : ℕ) (xs : List ℕ) (o : Option (Option ℕ × Store))
    → Heads p xs o
    → (s' : Scheduler) × (with_head s o ≡ some s') × Chain s'.store s'.subscriptions (without p xs)
unfolding Heads
of_Heads s p xs o (head', h', r, c) =
    (record s { subscriptions = head'; store = h' }, ap (with_head s) r, c)

unsubscribe_at-Chain :
    (fuel : ℕ) (s : Scheduler) (p : ℕ) (o : Option ℕ) (xs : List ℕ)
    → s.subscriptions ≡ o
    → Chain s.store o xs
    → Distinct xs
    → length xs < fuel
    → (s' : Scheduler) × (unsubscribe_at fuel s p o ≡ some s')
      × Chain s'.store s'.subscriptions (without p xs)
unfolding unsubscribe_at Chain without
unsubscribe_at-Chain fuel s p o [] q c d l = rw c (s, refl, q ∙ c)
unsubscribe_at-Chain fuel s p o (x ∷ xs) q (e, c) d l =
    rw e
      (of_Heads s p (x ∷ xs) _ (remove_from-Heads fuel s.store (some x) p (x ∷ xs) (refl, c) d l))

-- If the nodes of the list differ from each other and the fuel exceeds their number, `unsubscribe`
-- returns, and the list of the scheduler is then the one it was without the node,
-- wherever in the list the node stood, and whether it stood there at all.
pub unsubscribe-Chain :
    (fuel : ℕ) (s : Scheduler) (p : ℕ) (xs : List ℕ)
    → Chain s.store s.subscriptions xs
    → Distinct xs
    → length xs < fuel
    → (s' : Scheduler) × (unsubscribe fuel s p ≡ some s')
      × Chain s'.store s'.subscriptions (without p xs)
unfolding unsubscribe
unsubscribe-Chain fuel s p xs c d l = unsubscribe_at-Chain fuel s p s.subscriptions xs refl c d l
