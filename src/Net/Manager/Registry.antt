-- ===== src/Net/Manager/Registry.antt =====
-- The address table as a set of addresses.
use dread.Base.{
  ℕ, suc, ◌+◌, ◌%◌, ◌<◌, ◌≡◌, ◌≢◌, refl, sym, ap, ◌∙◌, ◌⊎◌, ◌↔◌, inl, inr, List, arith, get_or, set,
  length, get_or-set_self, get_or-set_ne, ◌==◌, ==_true, ==_false, ℕ_discrete, Bool-cases, Bool,
  true, false, ◌||◌, ◌&&◌, not,
}
use dread.Net.Manager.{
  NetManager, ProbeEnd, present, stop, is_present, probe_from, contains, add_address, place,
  available_addresses,
}
use dread.Net.Manager.Probe.{Ends, probe_from-Ends, probe_from-found}
use dread.Net.Manager.Validity.{IsValid, not-Clear, add_address-IsValid, empties-le}

-- The address stands in some slot of the table.
abbrev pub Holds : NetManager → ℕ → Type 0
Holds m a = (i : ℕ) × (i < 16) × (get_or m.table i 0 ≡ a)

ends : (m : NetManager) (a : ℕ) → Ends m.table a (probe_from m.table a 16 0 0)
ends m a = probe_from-Ends m.table a 16 0 0 (omega arith) (λ q l. absurd (omega arith))

-- In a valid table `contains` answers exactly whether a nonzero address stands in some slot.
pub contains_iff : (m : NetManager) (a : ℕ) → IsValid m → a ≢ 0 → (contains m a ≡ true) ↔ Holds m a
unfolding contains
contains_iff m a v nz = (sound (probe_from m.table a 16 0 0) (ends m a), complete)
  where
    sound : (s : ProbeEnd) → Ends m.table a s → is_present s ≡ true → Holds m a
    sound present (p, l, e) h = ((a + p) % 16, omega arith, e)
    sound (stop k) x h = cc

    complete : Holds m a → is_present (probe_from m.table a 16 0 0) ≡ true
    complete (i, l, e) =
        probe_from-found m.table a i 16 0 0 nz e (rw e at (v.reachable i l (λ z. nz (sym e ∙ z))))
          (omega arith) (ends m a)

-- What `addAddress` answers, while a slot is free, is that its probe did not meet the address.
pub accepted :
    (m : NetManager) (a : ℕ) → m.free_addresses ≢ 0 → (add_address m a).1 ≡ not (contains m a)
unfolding add_address available_addresses contains
accepted m a f = rw (==_false f) (go (probe_from m.table a 16 0 0))
  where
    go : (s : ProbeEnd) → (place m a s).1 ≡ not (is_present s)
    go present = refl
    go (stop h) = refl

refused_when_full : (m : NetManager) (a : ℕ) → m.free_addresses ≡ 0 → add_address m a ≡ (m, false)
unfolding add_address available_addresses
refused_when_full m a e = rw (==_true e)

contains-zero : (m : NetManager) → IsValid m → m.free_addresses ≢ 0 → contains m 0 ≡ true
unfolding contains
contains-zero m v f = go (probe_from m.table 0 16 0 0) (ends m 0)
  where
    go : (s : ProbeEnd) → Ends m.table 0 s → is_present s ≡ true
    go present x = refl
    go (stop h) (inl (at, z, nz)) = absurd (nz refl)
    go (stop h) (inr c) = absurd (not-Clear m.table 0 v.size (omega (arith, v.counted)) c)

-- `addAddress` accepts an address exactly when a slot is free, the address is not 0, and no slot
-- holds it.
pub add_address_accepts_iff :
    (m : NetManager) (a : ℕ)
    → IsValid m
    → ((add_address m a).1 ≡ true) ↔ ((m.free_addresses ≢ 0) × (a ≢ 0) × (¬ Holds m a))
add_address_accepts_iff m a v = (only_if, λ (f, nz, n). if_ f nz n)
  where
    room : (add_address m a).1 ≡ true → m.free_addresses ≢ 0
    room h f = cc (refused_when_full m a f)

    only_if : (add_address m a).1 ≡ true → (m.free_addresses ≢ 0) × (a ≢ 0) × (¬ Holds m a)
    only_if h =
        let absent : contains m a ≡ false = ground (arith, accepted m a (room h)) in
        let nz : a ≢ 0 = λ z. ground (arith, contains-zero m v (room h), absent, z) in
        (room h, nz, λ x. ground (arith, (contains_iff m a v nz).1 x, absent))

    if_ : m.free_addresses ≢ 0 → a ≢ 0 → ¬ Holds m a → (add_address m a).1 ≡ true
    if_ f nz n = elim (Bool-cases (contains m a)) [
      | inl c ↦ absurd (n ((contains_iff m a v nz).0 c))
      | inr c ↦ rw (accepted m a f, c)
    ]

add_address_refused :
    (m : NetManager) (a : ℕ) → (add_address m a).1 ≡ false → (add_address m a).0 ≡ m
unfolding add_address available_addresses
add_address_refused m a h = elim (ℕ_discrete m.free_addresses 0) [
  | yes e ↦ rw (==_true e)
  | no n ↦ rw (==_false n) (go (probe_from m.table a 16 0 0) (rw (==_false n) at h))
]
  where
    go : (s : ProbeEnd) → (place m a s).1 ≡ false → (place m a s).0 ≡ m
    go present x = refl
    go (stop k) x = cc

-- An accepted address goes to a slot that was empty, and nothing else moves.
add_address_accepted :
    (m : NetManager) (a : ℕ)
    → IsValid m
    → (add_address m a).1 ≡ true
    → (h : ℕ) × (h < 16) × (get_or m.table h 0 ≡ 0) × ((add_address m a).0 ≡ (place m a (stop h)).0)
unfolding add_address available_addresses
add_address_accepted m a v h = elim (ℕ_discrete m.free_addresses 0) [
  | yes e ↦ cc (rw (==_true e) at h)
  | no n ↦ rw (==_false n) (go n (probe_from m.table a 16 0 0) (ends m a) (rw (==_false n) at h))
]
  where
    go :
        m.free_addresses ≢ 0
        → (s : ProbeEnd) → Ends m.table a s
        → (place m a s).1 ≡ true
        → (h : ℕ) × (h < 16) × (get_or m.table h 0 ≡ 0) × ((place m a s).0 ≡ (place m a (stop h)).0)
    go n present x y = cc
    go n (stop k) (inl ((p, l, e, c), z, nz)) y = (k, omega arith, z, refl)
    go n (stop k) (inr c) y = absurd (not-Clear m.table a v.size (omega (arith, v.counted)) c)

Holds-set :
    (t : List ℕ) (a b h : ℕ)
    → length t ≡ 16
    → h < 16
    → get_or t h 0 ≡ 0
    → b ≢ 0
    → ((i : ℕ) × (i < 16) × (get_or (set t h a) i 0 ≡ b))
      ↔ ((a ≡ b) ⊎ ((i : ℕ) × (i < 16) × (get_or t i 0 ≡ b)))
Holds-set t a b h s l z nz = (only_if, if_)
  where
    only_if :
        (i : ℕ) × (i < 16) × (get_or (set t h a) i 0 ≡ b)
        → (a ≡ b) ⊎ ((i : ℕ) × (i < 16) × (get_or t i 0 ≡ b))
    only_if (i, li, e) = elim (ℕ_discrete h i) [
      | yes same ↦
          inl (
            sym (get_or-set_self t h a 0 (omega arith)) ∙ ap (λ j. get_or (set t h a) j 0) same ∙ e)
      | no other ↦ inr (i, li, sym (get_or-set_ne t h i a 0 other) ∙ e)
    ]

    if_ :
        (a ≡ b) ⊎ ((i : ℕ) × (i < 16) × (get_or t i 0 ≡ b))
        → (i : ℕ) × (i < 16) × (get_or (set t h a) i 0 ≡ b)
    if_ (inl e) = (h, l, get_or-set_self t h a 0 (omega arith) ∙ e)
    if_ (inr (i, li, e)) =
        (i, li, get_or-set_ne t h i a 0 (λ (same : h ≡ i). nz (sym e ∙ rw (← same) z)) ∙ e)

Bool_ext : (x y : Bool) → (x ≡ true → y ≡ true) → (y ≡ true → x ≡ true) → x ≡ y
Bool_ext true y f g = sym (f refl)
Bool_ext false true f g = g refl
Bool_ext false false f g = refl

-- After `addAddress` the table answers for the new address, if it was accepted, and for every
-- other nonzero address as before.
pub contains-add_address :
    (m : NetManager) (a b : ℕ)
    → IsValid m
    → b ≢ 0
    → contains (add_address m a).0 b ≡ ((add_address m a).1 && (a == b)) || contains m b
contains-add_address m a b v nz = elim (Bool-cases (add_address m a).1) [
  | inl yes_ ↦ rw yes_ (Bool_ext _ _ (forth yes_) (back yes_))
  | inr no_ ↦ rw (no_, add_address_refused m a no_)
]
  where
    v' : IsValid (add_address m a).0
    v' = add_address-IsValid m a v

    split : (add_address m a).1 ≡ true → (Holds (add_address m a).0 b) ↔ ((a ≡ b) ⊎ Holds m b)
    split y =
        let (h, l, z, e) = add_address_accepted m a v y in
        rw e (Holds-set m.table a b h v.size l z nz)

    forth :
        (add_address m a).1 ≡ true
        → contains (add_address m a).0 b ≡ true
        → ((a == b) || contains m b) ≡ true
    forth y c = elim ((split y).0 ((contains_iff _ b v' nz).0 c)) [
      | inl e ↦ rw (==_true e)
      | inr o ↦ ground (arith, (contains_iff m b v nz).1 o)
    ]

    back :
        (add_address m a).1 ≡ true
        → ((a == b) || contains m b) ≡ true
        → contains (add_address m a).0 b ≡ true
    back y c = (contains_iff _ b v' nz).1 (
        (split y).1 (elim (ℕ_discrete a b) [
          | yes e ↦ inl e
          | no n ↦ inr ((contains_iff m b v nz).0 (rw (==_false n) at c))
        ]))

-- An accepted address uses up one free slot.
pub free-add_address :
    (m : NetManager) (a : ℕ)
    → IsValid m
    → (add_address m a).1 ≡ true
    → suc (add_address m a).0.free_addresses ≡ m.free_addresses
free-add_address m a v y =
    let (h, l, z, e) = add_address_accepted m a v y in
    rw e (omega (arith, v.counted, v.size, empties-le m.table, (add_address_accepts_iff m a v).0 y))
