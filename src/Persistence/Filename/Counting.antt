-- ===== src/Persistence/Filename/Counting.antt =====
-- The file names as numbers in base 36.
use dread.Base.{
  ℕ, zero, suc, ◌+◌, ◌-◌, ◌*◌, ◌^◌, ◌<◌, ◌≤◌, ◌≡◌, ◌≢◌, ◌⊎◌, inl, inr, refl, sym, ap, ap₂, subst,
  ◌∙◌, List, leb, if◌then◌else◌, get_or, set, length, length-set, get_or-set_self, get_or-set_ne,
  ==_true, ==_false, ℕ_discrete, arith,
}
use dread.Persistence.Filename.{next_char, count_from, generate_next_uid}

-- A digit or a capital letter, and its value.
abbrev pub IsDigit : ℕ → Type 0
IsDigit c = ((48 ≤ c) × (c ≤ 57)) ⊎ ((65 ≤ c) × (c ≤ 90))

unfoldable pub digit : ℕ → ℕ
digit c = if leb c 57 then c - 48 else c - 55

-- The value of the `k` bytes from byte 3 on.
unfoldable pub number : ℕ → List ℕ → ℕ
number zero name = 0
number (suc k) name = number k name * 36 + digit (get_or name (k + 3) 0)

digit-next_char : (c : ℕ) → IsDigit c → c ≢ 90 → digit (next_char c) ≡ suc (digit c)
unfolding digit next_char
digit-next_char c h n = ground arith

number-set : (k j v : ℕ) (name : List ℕ) → k + 3 ≤ j → number k (set name j v) ≡ number k name
unfolding number
number-set zero j v name l = refl
number-set (suc k) j v name l =
    ap₂ (λ a c. a * 36 + digit c) (number-set k j v name (omega arith))
      (get_or-set_ne name j (k + 3) v 0 (λ e. omega arith))

count-carry :
    (k : ℕ) (name : List ℕ)
    → get_or name (k + 3) 0 ≡ b'Z'
    → count_from (suc k) name ≡ count_from k (set name (k + 3) b'0')
unfolding count_from next_char
count-carry k name z = rw (==_true z) refl

count-stop :
    (k : ℕ) (name : List ℕ)
    → get_or name (k + 3) 0 ≢ b'Z'
    → count_from (suc k) name ≡ set name (k + 3) (next_char (get_or name (k + 3) 0))
unfolding count_from
count-stop k name n = rw (==_false n) refl

-- The loop changes nothing from its first byte on to the right.
count_from-right :
    (k j : ℕ) (name : List ℕ) → k + 3 ≤ j → get_or (count_from k name) j 0 ≡ get_or name j 0
unfolding count_from
count_from-right zero j name l = refl
count_from-right (suc k) j name l = elim (ℕ_discrete (get_or name (k + 3) 0) b'Z') [
  | yes z ↦
      ap (λ m. get_or m j 0) (count-carry k name z)
      ∙ (count_from-right k j (set name (k + 3) b'0') (omega arith)
          ∙ get_or-set_ne name (k + 3) j b'0' 0 (λ e. omega arith))
  | no n ↦
      ap (λ m. get_or m j 0) (count-stop k name n)
      ∙ get_or-set_ne name (k + 3) j (next_char (get_or name (k + 3) 0)) 0 (λ e. omega arith)
]

-- One more, or from the greatest number to 0.
Counts : ℕ → List ℕ → List ℕ → Type 0
Counts k name name' =
    (number k name' ≡ suc (number k name)) ⊎ ((number k name' ≡ 0) × (suc (number k name) ≡ 36 ^ k))

-- Bytes 3 to `k + 2` are digits or letters.
abbrev pub IsName : ℕ → List ℕ → Type 0
IsName k name = (j : ℕ) → j < k → IsDigit (get_or name (j + 3) 0)

digit_carried :
    (k : ℕ) (name : List ℕ)
    → k + 3 < length name
    → digit (get_or (count_from k (set name (k + 3) b'0')) (k + 3) 0) ≡ 0
unfolding digit
digit_carried k name l = ap digit (
    count_from-right k (k + 3) (set name (k + 3) b'0') (omega arith)
    ∙ get_or-set_self name (k + 3) b'0' 0 l)

IsName-set : (k v : ℕ) (name : List ℕ) → IsName (suc k) name → IsName k (set name (k + 3) v)
IsName-set k v name h j l =
    subst IsDigit (sym (get_or-set_ne name (k + 3) (j + 3) v 0 (λ e. omega arith)))
      (h j (omega arith))

digit_top : digit b'Z' ≡ 35
unfolding digit
digit_top = refl

power :
    (k : ℕ) (name : List ℕ) {n : ℕ}
    → n ≡ number k name
    → digit (get_or name (k + 3) 0) ≡ 35
    → suc n ≡ 36 ^ k
    → suc (number (suc k) name) ≡ 36 ^ suc k
unfolding number
power k name e top p = omega (arith, e, top, p)

carry :
    (k : ℕ) (name : List ℕ)
    → k + 3 < length name
    → get_or name (k + 3) 0 ≡ b'Z'
    → Counts k (set name (k + 3) b'0') (count_from k (set name (k + 3) b'0'))
    → Counts (suc k) name (count_from k (set name (k + 3) b'0'))
unfolding Counts number
carry k name l z c =
    let before = number-set k (k + 3) b'0' name (omega arith) in
    let zeroed = digit_carried k name l in
    let top = ap digit z ∙ digit_top in
    elim c [
      | inl e ↦ inl (omega (arith, before, zeroed, top, e))
      | inr e ↦ inr (omega (arith, zeroed, e.0), power k name before top e.1)
    ]

stop :
    (k : ℕ) (name : List ℕ)
    → k + 3 < length name
    → get_or name (k + 3) 0 ≢ b'Z'
    → IsDigit (get_or name (k + 3) 0)
    → Counts (suc k) name (set name (k + 3) (next_char (get_or name (k + 3) 0)))
unfolding Counts number
stop k name l n h =
    let c = get_or name (k + 3) 0 in
    inl (
      omega (
        arith,
        number-set k (k + 3) (next_char c) name (omega arith),
        ap digit (get_or-set_self name (k + 3) (next_char c) 0 l),
        digit-next_char c h n,
      ))

count_from-Counts :
    (k : ℕ) (name : List ℕ)
    → k + 3 ≤ length name
    → IsName k name
    → Counts k name (count_from k name)
unfolding Counts count_from number
count_from-Counts zero name l h = inr (refl, refl)
count_from-Counts (suc k) name l h = elim (ℕ_discrete (get_or name (k + 3) 0) b'Z') [
  | yes z ↦ subst (Counts (suc k) name) (sym (count-carry k name z)) (
      carry k name (omega arith) z (
        count_from-Counts k (set name (k + 3) b'0') (omega (arith, length-set name (k + 3) b'0'))
          (IsName-set k b'0' name h)))
  | no n ↦
      subst (Counts (suc k) name) (sym (count-stop k name n))
        (stop k name (omega arith) n (h k (omega arith)))
]

next_char-IsDigit : (c : ℕ) → IsDigit c → IsDigit (next_char c)
unfolding next_char
next_char-IsDigit c h = ground arith

set-IsName :
    (k i v : ℕ) (name : List ℕ)
    → i + 3 < length name
    → IsDigit v
    → IsName k name
    → IsName k (set name (i + 3) v)
set-IsName k i v name l d h j lj = elim (ℕ_discrete i j) [
  | yes e ↦
      subst (λ n. IsDigit (get_or (set name (i + 3) v) (n + 3) 0)) e
        (subst IsDigit (sym (get_or-set_self name (i + 3) v 0 l)) d)
  | no ne ↦
      subst IsDigit (sym (get_or-set_ne name (i + 3) (j + 3) v 0 (λ e. ne (omega (arith, e)))))
        (h j lj)
]

-- The loop keeps a name of digits and capital letters, its length, and the bytes in front.
count_from-IsName :
    (n k : ℕ) (name : List ℕ)
    → k ≤ n
    → k + 3 ≤ length name
    → IsName n name
    → IsName n (count_from k name) × (length (count_from k name) ≡ length name)
unfolding count_from
count_from-IsName n zero name lk l h = (h, refl)
count_from-IsName n (suc k) name lk l h = elim (ℕ_discrete (get_or name (k + 3) 0) b'Z') [
  | yes z ↦
      let m = set name (k + 3) b'0' in
      let size = length-set name (k + 3) b'0' in
      let (h', l') =
        count_from-IsName n k m (omega arith) (omega (arith, l, size))
          (set-IsName n k b'0' name (omega arith) (inl (omega arith, omega arith)) h) in
      let e = sym (count-carry k name z) in (subst (IsName n) e h', ap length (sym e) ∙ (l' ∙ size))
  | no ne ↦
      let c = next_char (get_or name (k + 3) 0) in
      let e = sym (count-stop k name ne) in
      (
        subst (IsName n) e (
            set-IsName n k c name (omega arith)
              (next_char-IsDigit (get_or name (k + 3) 0) (h k (omega arith))) h),
        ap length (sym e) ∙ length-set name (k + 3) c,
      )
]

count_from-left :
    (k j : ℕ) (name : List ℕ) → j < 3 → get_or (count_from k name) j 0 ≡ get_or name j 0
unfolding count_from
count_from-left zero j name l = refl
count_from-left (suc k) j name l = elim (ℕ_discrete (get_or name (k + 3) 0) b'Z') [
  | yes z ↦
      ap (λ m. get_or m j 0) (count-carry k name z)
      ∙ (count_from-left k j (set name (k + 3) b'0') l
          ∙ get_or-set_ne name (k + 3) j b'0' 0 (λ e. omega arith))
  | no n ↦
      ap (λ m. get_or m j 0) (count-stop k name n)
      ∙ get_or-set_ne name (k + 3) j (next_char (get_or name (k + 3) 0)) 0 (λ e. omega arith)
]

-- How a name follows another: its bytes 3 to 7 are digits or capital letters, and as a number in base 36 they
-- are one more, or 0 after the greatest one; the length and all other bytes are as before.
pub record Succeeds (name name' : List ℕ) : Type 0 where
  pub counted :
      (number 5 name' ≡ suc (number 5 name))
      ⊎ ((number 5 name' ≡ 0) × (suc (number 5 name) ≡ 36 ^ 5))
  pub named : IsName 5 name'
  pub size : length name' ≡ length name
  pub front : (j : ℕ) → j < 3 → get_or name' j 0 ≡ get_or name j 0
  pub back : (j : ℕ) → 8 ≤ j → get_or name' j 0 ≡ get_or name j 0

-- The next name follows a name of at least eight bytes with digits or capital letters in bytes 3 to 7.
pub generate_next_uid-Succeeds :
    (name : List ℕ) → 8 ≤ length name → IsName 5 name → Succeeds name (generate_next_uid name)
unfolding Counts generate_next_uid
generate_next_uid-Succeeds name l h =
    let (named, size) = count_from-IsName 5 5 name (omega arith) l h in
    record {
      counted = count_from-Counts 5 name l h;
      named = named;
      size = size;
      front = λ j lj. count_from-left 5 j name lj;
      back = λ j lj. count_from-right 5 j name lj;
    }
