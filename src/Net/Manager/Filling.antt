-- ===== src/Net/Manager/Filling.antt =====
-- A master that registers many slaves in a row.
use dread.Base.{
  ℕ, zero, suc, ◌+◌, ◌≤◌, ◌<◌, ◌≡◌, ◌≢◌, refl, sym, ◌∙◌, inl, inr, List, [], ◌∷◌, arith, length,
  ◌==◌, ==_true, ==_false, get_or, replicate, ℕ_discrete, Bool-cases, Bool, true, false, ◌&&◌, ◌||◌,
}
use dread.Net.Manager.{NetManager, new, contains, add_address}
use dread.Net.Manager.Validity.{IsValid, new-IsValid, add_address-IsValid}
use dread.Net.Manager.Registry.{
  contains_iff, add_address_accepts_iff, contains-add_address, free-add_address,
}

-- The addresses in their order of arrival, and whether every one was accepted.
pub add_all : NetManager → List ℕ → NetManager × Bool
add_all m [] = (m, true)
add_all m (a ∷ as_) =
    let (m', accepted) = add_address m a in
    let (m'', rest) = add_all m' as_ in (m'', accepted && rest)

abbrev pub member : List ℕ → ℕ → Bool
member [] b = false
member (a ∷ as_) b = (a == b) || member as_ b

-- Nonzero addresses that differ from each other.
abbrev pub Distinct : List ℕ → Type 0
Distinct [] = Unit {0}
Distinct (a ∷ as_) = (a ≢ 0) × (member as_ a ≡ false) × Distinct as_

-- Free of the addresses of a list.
abbrev Avoids : NetManager → List ℕ → Type 0
Avoids m [] = Unit {0}
Avoids m (a ∷ as_) = (contains m a ≡ false) × Avoids m as_

-- What registering a list of addresses in a table comes to.
record Filled (m : NetManager) (as_ : List ℕ) (r : NetManager × Bool) : Type 0 where
  valid : IsValid r.0
  accepted : r.1 ≡ true
  used : r.0.free_addresses + length as_ ≡ m.free_addresses
  holds : (b : ℕ) → b ≢ 0 → contains r.0 b ≡ member as_ b || contains m b

accepts :
    (m : NetManager) (a : ℕ)
    → IsValid m
    → a ≢ 0
    → 0 < m.free_addresses
    → contains m a ≡ false
    → (add_address m a).1 ≡ true
accepts m a v nz f c =
    (add_address_accepts_iff m a v).1
      ((λ e. omega arith), nz, λ x. ground (arith, (contains_iff m a v nz).1 x))

regroup : (x y z : Bool) → x || (y || z) ≡ (y || x) || z
regroup true true z = refl
regroup true false z = refl
regroup false true z = refl
regroup false false z = refl

or-true : (x : Bool) → x || true ≡ true
or-true true = refl
or-true false = refl

member_nonzero : (as_ : List ℕ) (b : ℕ) → Distinct as_ → member as_ b ≡ true → b ≢ 0
member_nonzero [] b d h = cc
member_nonzero (a ∷ as_) b (nz, once, d) h = elim (ℕ_discrete a b) [
  | yes e ↦ λ z. nz (e ∙ z)
  | no n ↦ member_nonzero as_ b d (rw (==_false n) at h)
]

cons-Filled :
    (a : ℕ) (as_ : List ℕ) (m : NetManager)
    → IsValid m
    → a ≢ 0
    → (add_address m a).1 ≡ true
    → Filled (add_address m a).0 as_ (add_all (add_address m a).0 as_)
    → Filled m (a ∷ as_) (add_all m (a ∷ as_))
unfolding add_all
cons-Filled a as_ m v nz ok rest = record {
  valid = rest.valid;
  accepted = rw (ok, rest.accepted);
  used = omega (arith, rest.used, free-add_address m a v ok);
  holds = λ b nb.
      rest.holds b nb
      ∙ rw (contains-add_address m a b v nb, ok) (regroup (member as_ b) (a == b) (contains m b));
}

add_all-Filled :
    (as_ : List ℕ) (m : NetManager)
    → IsValid m
    → Distinct as_
    → length as_ ≤ m.free_addresses
    → ((b : ℕ) → member as_ b ≡ true → contains m b ≡ false)
    → Filled m as_ (add_all m as_)
unfolding add_all
add_all-Filled [] m v d l fresh = record {
  valid = v;
  accepted = refl;
  used = omega arith;
  holds = λ b nz. refl;
}
add_all-Filled (a ∷ as_) m v (nz, once, d) l fresh = cons-Filled a as_ m v nz ok (
    add_all-Filled as_ (add_address m a).0 (add_address-IsValid m a v) d
      (omega (arith, free-add_address m a v ok)) still)
  where
    ok : (add_address m a).1 ≡ true
    ok =
        accepts m a v nz (omega arith)
          (fresh a (let same : (a == a) ≡ true = ==_true refl in rw same))

    apart : (b : ℕ) → member as_ b ≡ true → ¬ (a ≡ b)
    apart b h e = let m : member as_ a ≡ true = rw e h in cc (once, m)

    still : (b : ℕ) → member as_ b ≡ true → contains (add_address m a).0 b ≡ false
    still b h = rw (
      contains-add_address m a b v (member_nonzero as_ b d h),
      ok,
      ==_false (apart b h),
      fresh b (rw h (or-true (a == b))),
    )

contains-new : (b : ℕ) → b ≢ 0 → contains new b ≡ false
contains-new b nz = elim (Bool-cases (contains new b)) [
  | inr n ↦ n
  | inl y ↦ let (i, l, e) = (contains_iff new b new-IsValid nz).0 y in absurd (nz (sym e ∙ empty i))
]
  where
    zeroes : (k i : ℕ) → ◌≡◌ {A = ℕ} (get_or (replicate k 0) i 0) 0
    zeroes zero i = refl
    zeroes (suc k) zero = refl
    zeroes (suc k) (suc i) = zeroes k i

    empty : (i : ℕ) → get_or new.table i 0 ≡ 0
    empty i = unfold new in zeroes 16 i

or-false : (x : Bool) → x || false ≡ x
or-false true = refl
or-false false = refl

-- A new table accepts any list of at most 16 addresses that are nonzero and differ from each other:
-- every one is accepted, the free slots count down, and afterwards exactly these are contained.
pub add_all-new :
    (as_ : List ℕ)
    → Distinct as_
    → length as_ ≤ 16
    → ((add_all new as_).1 ≡ true)
      × ((add_all new as_).0.free_addresses + length as_ ≡ 16)
      × ((b : ℕ) → b ≢ 0 → contains (add_all new as_).0 b ≡ member as_ b)
add_all-new as_ d l = (
  r.accepted,
  r.used ∙ size,
  λ b nz. r.holds b nz ∙ rw (contains-new b nz) (or-false (member as_ b)),
)
  where
    size : new.free_addresses ≡ 16
    size = unfold new in refl

    nonzero : (b : ℕ) → member as_ b ≡ true → contains new b ≡ false
    nonzero b h = contains-new b (member_nonzero as_ b d h)

    r : Filled new as_ (add_all new as_)
    r = add_all-Filled as_ new new-IsValid d (omega (arith, size)) nonzero
