-- ===== src/Net/Manager/Cursor.antt =====
-- The cursor of the address table: `nextAddress` and `getAddress`.
use dread.Base.{
  ℕ, zero, suc, ◌+◌, ◌%◌, ◌≤◌, ◌<◌, ◌≡◌, ◌≢◌, refl, ap, ◌⊎◌, inl, inr, List, [], ◌∷◌, arith, get_or,
  length, !=_true, !=_false, ℕ_discrete, true, false, some, Option, get_elem?,
}
use dread.Net.Manager.{NetManager, next_address, scan, stopped_before}
use dread.Net.Manager.Validity.{IsValid}

get_elem?-in : (t : List ℕ) (i : ℕ) → i < length t → get_elem? t i ≡ some (get_or t i 0)
get_elem?-in [] i h = absurd (omega arith)
get_elem?-in (x ∷ xs) zero h = refl
get_elem?-in (x ∷ xs) (suc i) h = get_elem?-in xs i (omega arith)

-- Where the search of `nextAddress` ends, from a slot after the first.
abbrev Scanned : List ℕ → ℕ → Option ℕ → Type 0
Scanned t i r =
    ((r ≡ some 0) × ((j : ℕ) → i ≤ j → j < 16 → get_or t j 0 ≡ 0))
    ⊎ ((j : ℕ) × (0 < j) × (j < 16) × (r ≡ some j) × (get_or t j 0 ≢ 0))

module _ (t : List ℕ) (fuel i : ℕ) (size : length t ≡ 16) (p : 0 < i) (l : i < 16) where
  scan-stop : get_or t i 0 ≢ 0 → scan (suc fuel) t 0 i ≡ some i
  unfolding scan
  scan-stop n = rw (!=_true (λ (e : i ≡ 0). omega arith), get_elem?-in t i (omega arith), !=_true n)

  scan-skip : get_or t i 0 ≡ 0 → scan (suc fuel) t 0 i ≡ scan fuel t 0 ((i + 1) % 16)
  unfolding scan
  scan-skip z =
      rw (!=_true (λ (e : i ≡ 0). omega arith), get_elem?-in t i (omega arith), !=_false z)

scan-end : (t : List ℕ) (fuel : ℕ) → scan (suc fuel) t 0 0 ≡ some 0
unfolding scan
scan-end t fuel = refl

Scanned-back :
    (t : List ℕ) (i : ℕ) (r : Option ℕ) → get_or t i 0 ≡ 0 → Scanned t (i + 1) r → Scanned t i r
Scanned-back t i r z (inr x) = inr x
Scanned-back t i r z (inl (e, c)) = inl (
  e,
  λ j lj hj. elim (ℕ_discrete i j) [ yes same ↦ rw (← same) z | no other ↦ c j (omega arith) hj ],
)

scan-Scanned :
    (t : List ℕ) (fuel i : ℕ)
    → length t ≡ 16
    → 0 < i
    → i < 16
    → 16 < fuel + i
    → Scanned t i (scan fuel t 0 i)
scan-Scanned t zero i s p l f = absurd (omega arith)
scan-Scanned t (suc zero) i s p l f = absurd (omega arith)
scan-Scanned t (suc (suc fuel)) i s p l f = elim (ℕ_discrete (get_or t i 0) 0) [
  | no n ↦ inr (i, p, l, scan-stop t (suc fuel) i s p l n, n)
  | yes z ↦ rw (scan-skip t (suc fuel) i s p l z) (elim (ℕ_discrete i 15) [
    | yes e ↦
        rw e (inl (scan-end t fuel, λ j lj hj. let same : i ≡ j = omega arith in rw (← same) z))
    | no n ↦
        let next : (i + 1) % 16 ≡ i + 1 = omega arith in
        rw next (
          Scanned-back t i _ z
            (scan-Scanned t (suc fuel) (i + 1) s (omega arith) (omega arith) (omega arith)))
  ])
]

-- With a valid table `nextAddress` ends, stays inside of the table, and tells exactly whether a slot
-- other than the first is in use.
pub next_address_lem :
    (m : NetManager)
    → IsValid m
    → ((next_address m ≡ some true) × ((j : ℕ) × (0 < j) × (j < 16) × (get_or m.table j 0 ≢ 0)))
      ⊎ ((next_address m ≡ some false) × ((j : ℕ) → 0 < j → j < 16 → get_or m.table j 0 ≡ 0))
unfolding next_address
next_address_lem m v = rw v.start (
    go (scan 17 m.table 0 1)
      (scan-Scanned m.table 17 1 v.size (omega arith) (omega arith) (omega arith)))
  where
    go :
        (r : Option ℕ)
        → Scanned m.table 1 r
        → ((stopped_before 0 r ≡ some true)
            × ((j : ℕ) × (0 < j) × (j < 16) × (get_or m.table j 0 ≢ 0)))
          ⊎ ((stopped_before 0 r ≡ some false)
              × ((j : ℕ) → 0 < j → j < 16 → get_or m.table j 0 ≡ 0))
    go r (inl (e, c)) = inr (rw e, c)
    go r (inr (j, p, l, e, n)) =
        inl (rw e (ap some (!=_true (λ (z : j ≡ 0). omega arith))), (j, p, l, n))
