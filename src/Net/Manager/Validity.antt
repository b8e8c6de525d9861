-- ===== src/Net/Manager/Validity.antt =====
-- The invariant of the address table.
use dread.Base.{
  ℕ, zero, suc, ◌+◌, ◌-◌, ◌%◌, ◌≤◌, ◌<◌, ◌≡◌, ◌≢◌, refl, sym, ap, ◌∙◌, inl, inr, List, [], ◌∷◌,
  arith, get_or, set, length, length-set, get_or-set_self, get_or-set_ne, ◌==◌, ==_true, ==_false,
  ℕ_discrete, if◌then◌else◌, replicate,
}
use dread.Net.Manager.{
  NetManager, new, ProbeEnd, present, stop, probe_from, add_address, place, available_addresses,
}
use dread.Net.Manager.Probe.{Clear, FoundAt, Ends, probe_from-Ends}

-- How many slots are empty.
abbrev pub empties : List ℕ → ℕ
empties [] = 0
empties (x ∷ xs) = if x == 0 then suc (empties xs) else empties xs

-- The table has its 16 slots, the counter counts the empty ones, every address stands where its
-- probes reach it, and the cursor has not moved.
pub record IsValid (m : NetManager) : Type 0 where
  pub size : length m.table ≡ 16
  pub counted : m.free_addresses ≡ empties m.table
  pub reachable : (i : ℕ) → i < 16 → get_or m.table i 0 ≢ 0 → FoundAt m.table (get_or m.table i 0) i
  pub start : m.idx ≡ 0

empties-set :
    (t : List ℕ) (i v : ℕ)
    → i < length t
    → get_or t i 0 ≡ 0
    → v ≢ 0
    → suc (empties (set t i v)) ≡ empties t
empties-set [] i v l z n = absurd (omega arith)
empties-set (x ∷ xs) zero v l z n = rw (==_true z, ==_false n)
empties-set (x ∷ xs) (suc i) v l z n = ground (arith, empties-set xs i v (omega arith) z n)

empties_pos : (t : List ℕ) → 0 < empties t → (i : ℕ) × (i < length t) × (get_or t i 0 ≡ 0)
empties_pos [] h = absurd (omega arith)
empties_pos (x ∷ xs) h = elim (ℕ_discrete x 0) [
  | yes z ↦ (0, omega arith, z)
  | no n ↦ let (i, l, z) = empties_pos xs (rw (==_false n) at h) in (suc i, omega arith, z)
]

pub empties-le : (t : List ℕ) → empties t ≤ length t
empties-le [] = omega arith
empties-le (x ∷ xs) = ground (arith, empties-le xs)

-- With an empty slot left, sixteen probes cannot all meet addresses.
pub not-Clear : (t : List ℕ) (a : ℕ) → length t ≡ 16 → 0 < empties t → ¬ (Clear t a 16)
not-Clear t a s h c =
    let (i, l, z) = empties_pos t h in
    (c ((i + 16 - a % 16) % 16) (omega arith)).0
      (ap (λ j. get_or t j 0) (there i (omega arith)) ∙ z)
  where
    there : (i : ℕ) → i < 16 → (a + (i + 16 - a % 16) % 16) % 16 ≡ i
    there i l = omega arith

-- A write to an empty slot leaves the probes of the other addresses as they were.
Clear-set : (t : List ℕ) (a b p k : ℕ) → get_or t k 0 ≡ 0 → Clear t b p → Clear (set t k a) b p
Clear-set t a b p k z c q l =
    rw (get_or-set_ne t k ((b + q) % 16) a 0 (λ e. (c q l).0 (ap (λ j. get_or t j 0) (sym e) ∙ z)))
      (c q l)

FoundAt-set :
    (t : List ℕ) (a b k i : ℕ) → get_or t k 0 ≡ 0 → FoundAt t b i → FoundAt (set t k a) b i
FoundAt-set t a b k i z (p, l, e, c) = (p, l, e, Clear-set t a b p k z c)

-- The constructor's table is valid.
pub new-IsValid : IsValid new
unfolding new
new-IsValid = record {
  size = refl;
  counted = refl;
  reachable = λ i l n. absurd (n (zeroes 16 i));
  start = refl;
}
  where
    zeroes : (k i : ℕ) → ◌≡◌ {A = ℕ} (get_or (replicate k 0) i 0) 0
    zeroes zero i = refl
    zeroes (suc k) zero = refl
    zeroes (suc k) (suc i) = zeroes k i

place-IsValid :
    (m : NetManager) (a : ℕ) (s : ProbeEnd)
    → IsValid m
    → 0 < m.free_addresses
    → Ends m.table a s
    → IsValid (place m a s).0
place-IsValid m a present v f x = v
place-IsValid m a (stop h) v f (inr c) =
    absurd (not-Clear m.table a v.size (omega (arith, v.counted)) c)
place-IsValid m a (stop h) v f (inl ((p, l, e, c), z, nz)) = record {
  size = length-set m.table h a ∙ v.size;
  counted =
      omega
        (arith, v.counted, v.size, empties-le m.table, empties-set m.table h a (omega arith) z nz);
  reachable = reach;
  start = v.start;
}
  where
    reach :
        (i : ℕ)
        → i < 16
        → get_or (set m.table h a) i 0 ≢ 0
        → FoundAt (set m.table h a) (get_or (set m.table h a) i 0) i
    reach i li n = elim (ℕ_discrete h i) [
      | yes same ↦
          rw (← same, get_or-set_self m.table h a 0 (omega (arith, v.size)))
            (p, l, e, Clear-set m.table a a p h z c)
      | no other ↦ rw (get_or-set_ne m.table h i a 0 other) (
          FoundAt-set m.table a (get_or m.table i 0) h i z
            (v.reachable i li (rw (get_or-set_ne m.table h i a 0 other) at n)))
    ]

-- `addAddress` keeps the table valid, whatever the address.
pub add_address-IsValid : (m : NetManager) (a : ℕ) → IsValid m → IsValid (add_address m a).0
unfolding add_address available_addresses
add_address-IsValid m a v = elim (ℕ_discrete m.free_addresses 0) [
  | yes e ↦ rw (==_true e) v
  | no e ↦ rw (==_false e) (
      place-IsValid m a (probe_from m.table a 16 0 0) v (omega arith)
        (probe_from-Ends m.table a 16 0 0 (omega arith) (λ q l. absurd (omega arith))))
]
