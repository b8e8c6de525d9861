-- ===== src/Net/Manager/Probe.antt =====
-- Where the probe loop of the address table ends.
use dread.Base.{
  ℕ, zero, suc, ◌+◌, ◌%◌, ◌<◌, ◌≡◌, ◌≢◌, refl, ◌⊎◌, inl, inr, List, arith, ap, true, get_or,
  ==_true, ==_false, !=_true, !=_false, sym, ◌∙◌, ℕ_discrete, dec_lt,
}
use dread.Net.Manager.{ProbeEnd, present, stop, probe_from, is_present}

-- The slot that the address probes in its q-th round.
abbrev pub slot : List ℕ → ℕ → ℕ → ℕ
slot t a q = get_or t ((a + q) % 16) 0

-- The first `p` probes of the address meet neither an empty slot nor the address.
abbrev pub Clear : List ℕ → ℕ → ℕ → Type 0
Clear t a p = (q : ℕ) → q < p → (slot t a q ≢ 0) × (slot t a q ≢ a)

-- The address is what a table holds at a round that its probes reach.
abbrev pub FoundAt : List ℕ → ℕ → ℕ → Type 0
FoundAt t a i = (p : ℕ) × (p < 16) × ((a + p) % 16 ≡ i) × Clear t a p

abbrev pub Ends : List ℕ → ℕ → ProbeEnd → Type 0
Ends t a present = (p : ℕ) × (p < 16) × (slot t a p ≡ a)
Ends t a (stop h) = ((FoundAt t a h) × (get_or t h 0 ≡ 0) × (a ≢ 0)) ⊎ (Clear t a 16)

Clear-suc :
    (t : List ℕ) (a p : ℕ) → Clear t a p → slot t a p ≢ 0 → slot t a p ≢ a → Clear t a (p + 1)
Clear-suc t a p c n m q h = elim (ℕ_discrete q p) [ yes e ↦ rw e (n, m) | no e ↦ c q (omega arith) ]

pub probe_from-Ends :
    (t : List ℕ) (a r p h : ℕ) → p + r ≡ 16 → Clear t a p → Ends t a (probe_from t a r p h)
unfolding probe_from
probe_from-Ends t a zero p h e c = inr (λ q l. c q (omega arith))
probe_from-Ends t a (suc r) p h e c = elim (ℕ_discrete (slot t a p) a) [
  | yes hit ↦ rw (==_true hit) (p, omega arith, hit)
  | no miss ↦ elim (ℕ_discrete (slot t a p) 0) [
    | yes empty ↦
        rw (==_false miss, !=_false empty)
          (inl ((p, omega arith, refl, c), empty, λ z. miss (empty ∙ sym z)))
    | no full ↦
        rw (==_false miss, !=_true full)
          (probe_from-Ends t a r (p + 1) ((a + p) % 16) (omega arith) (Clear-suc t a p c full miss))
  ]
]

-- An address that the table holds where its probes reach it is met.
pub probe_from-found :
    (t : List ℕ) (a i : ℕ) (r p h : ℕ)
    → a ≢ 0
    → get_or t i 0 ≡ a
    → FoundAt t a i
    → p + r ≡ 16
    → Ends t a (probe_from t a r p h)
    → is_present (probe_from t a r p h) ≡ true
probe_from-found t a i r p h nz at f e ends = go (probe_from t a r p h) ends
  where
    go : (s : ProbeEnd) → Ends t a s → is_present s ≡ true
    go present x = refl
    go (stop k) (inl ((q, lq, eq, c), z, n)) = elim (dec_lt f.0 q) [
      | yes l ↦ absurd ((c f.0 l).1 (ap (λ j. get_or t j 0) f.2 ∙ at))
      | no l ↦ elim (ℕ_discrete q f.0) [
        | yes e ↦ absurd (nz (sym at ∙ ap (λ j. get_or t j 0) (sym f.2 ∙ rw (← e) eq) ∙ z))
        | no e ↦ absurd ((f.3 q (omega arith)).0 (ap (λ j. get_or t j 0) eq ∙ z))
      ]
    ]
    go (stop k) (inr c) = absurd ((c f.0 f.1).1 (ap (λ j. get_or t j 0) f.2 ∙ at))
