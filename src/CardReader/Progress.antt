-- ===== src/CardReader/Progress.antt =====
-- The stages of a look for a card, and what a predicate on the state has to survive to hold after them.
use dread.Base.{
  ℕ, ◌≡◌, inl, inr, refl, ap₂, Bool, true, false, Option, none, some, List, [], ◌∷◌, ◌==◌, ◌!=◌,
  ◌&&◌, if◌then◌else◌, Bool-cases, ==_iff, ==_true,
}
use dread.Hardware.{World, Port}
use dread.Hid.{beep}
use dread.Locale.{Locale, get_date_time}
use dread.Mifare.{MifareLite, Outcome, select_tag, auth, read_block, halt, mi_err, picc_authent1b}
use dread.Persistence.Interface.{Persistence, write_transaction}
use dread.CardReader.{
  Reading, Progress, same_bytes, on_outcome, record_of, dated, store_record, read_card, auth_card,
  select_card,
}

pub same_bytes-≡ : (xs ys : List ℕ) → same_bytes xs ys ≡ true → xs ≡ ys
unfolding same_bytes
same_bytes-≡ [] [] h = refl
same_bytes-≡ [] (y ∷ ys) h = cc
same_bytes-≡ (x ∷ xs) [] h = cc
same_bytes-≡ (x ∷ xs) (y ∷ ys) h = elim (Bool-cases (x == y)) [
  | inl e ↦ ap₂ (λ a as_. a ∷ as_) ((==_iff x y).0 e) (same_bytes-≡ xs ys (rw e at h))
  | inr e ↦ cc (rw e at h)
]

pub and_right : (a b : Bool) → (a && b) ≡ true → b ≡ true
and_right true b h = h
and_right false b h = cc

module _ {S : Type 0} where
  -- A predicate on the state of a result, if there is one.
  unfoldable pub After : (Reading S → Type 0) → Progress S → Type 0
  After Q none = Unit {0}
  After Q (some (result, s, w)) = Q s

  pub After-if :
      (Q : Reading S → Type 0) (b : Bool) (o o' : Progress S)
      → After Q o
      → After Q o'
      → After Q (if b then o else o')
  After-if Q true o o' h h' = h
  After-if Q false o o' h h' = h'

  pub After-when :
      (Q : Reading S → Type 0) (b : Bool) (o o' : Progress S)
      → (b ≡ true → After Q o)
      → After Q o'
      → After Q (if b then o else o')
  After-when Q true o o' h h' = h refl
  After-when Q false o o' h h' = h'

  pub After-either :
      (Q : Reading S → Type 0) (b : Bool) (o o' : Progress S)
      → (b ≡ true → After Q o)
      → (b ≡ false → After Q o')
      → After Q (if b then o else o')
  After-either Q true o o' h h' = h refl
  After-either Q false o o' h h' = h' refl

  pub After-map :
      (Q R : Reading S → Type 0) (o : Progress S)
      → ((s : Reading S) → Q s → R s)
      → After Q o
      → After R o
  unfolding After
  After-map Q R none f h = tt
  After-map Q R (some (b, s, w)) f h = f s h

  pub After-on_outcome :
      (Q : Reading S → Type 0) (o : Outcome) (k : ℕ → List ℕ → World → Progress S)
      → ((status : ℕ) (buffer : List ℕ) (w : World) → After Q (k status buffer w))
      → After Q (on_outcome o k)
  unfolding After
  After-on_outcome Q (status, none, w) k h = tt
  After-on_outcome Q (status, some buffer, w) k h = h status buffer w

-- A predicate that survives a change of the buffer and what a client does with the persistence.
pub record Survives {S : Type 0} (p : Persistence S) (Q : Reading S → Type 0) : Type 0 where
  pub buffers : (s : Reading S) (b : List ℕ) → Q s → Q (record s { buffer = b })
  pub begins :
      (s : Reading S) (t : ℕ) → Q s → Q (record s { store = (p.begin_transaction t s.store).1 })
  pub stores :
      (s : Reading S) (r : ℕ) (d : List ℕ) (w : World)
      → Q s
      → Q (record s {
        buffer = d;
        store = p.commit_transaction (p.write_record r d 13 s.store w).0;
      })

module _ (m : MifareLite) {S : Type 0} (p : Persistence S) (locale : Locale) (logger : Port) where
  -- What holds before the record is stored, and what then holds at the end of every branch.
  pub record Leads (B Q : Reading S → Type 0) : Type 0 where
    pub buffers : (s : Reading S) (b : List ℕ) → B s → B (record s { buffer = b })
    pub gives_up : (s : Reading S) → B s → Q s
    pub saves : (s : Reading S) (w : World) → B s → After Q (store_record m p locale logger s w)

  module _ (Q : Reading S → Type 0) (survives : Survives p Q) where
    dated-After :
        (r : ℕ) (s : Reading S) (w : World) (o : Option (List ℕ))
        → Q s
        → After Q (dated m p locale logger r s w o)
    unfolding After
    dated-After r s w none q = tt
    dated-After r s w (some d) q = survives.stores s r d w q

    store_record-After :
        (s : Reading S) (w : World) → Q s → After Q (store_record m p locale logger s w)
    unfolding store_record After
    store_record-After s w q =
        let q1 = survives.begins s write_transaction q in
        let s1 = record s { store = (p.begin_transaction write_transaction s.store).1 } in
        After-if Q (p.begin_transaction write_transaction s.store).0 _ (some (false, s1, w))
          (dated-After (record_of s.buffer) s1 w (get_date_time locale s.buffer) q1) q1

    pub survives-Leads : Leads Q Q
    survives-Leads = record {
      buffers = survives.buffers;
      gives_up = λ s q. q;
      saves = store_record-After;
    }

  module _ (B Q : Reading S → Type 0) (leads : Leads B Q) where
    read_card-After :
        (garbage : ℕ) (stack : List ℕ) (s : Reading S) (w : World)
        → B s
        → After Q (read_card m p locale logger garbage stack s w)
    unfolding read_card After
    read_card-After garbage stack s w q =
        After-on_outcome Q (read_block m 0x04 s.buffer garbage w) _ λ status b w1.
          let s1 = record s { buffer = b } in
          let q1 = leads.buffers s b q in
          After-if Q (status != mi_err) _ (some (false, s1, w1))
            (After-on_outcome Q (halt m stack garbage w1) _ λ _ _ w2. leads.saves s1 w2 q1)
            (leads.gives_up s1 q1)

    auth_card-After :
        (garbage : ℕ) (stack key : List ℕ) (s : Reading S) (w : World)
        → B s
        → After Q (auth_card m p locale logger garbage stack key s w)
    unfolding auth_card After
    auth_card-After garbage stack key s w q =
        After-on_outcome Q (auth m picc_authent1b 0x04 key s.buffer s.serial garbage w) _
          λ status b w1.
            let s1 = record s { buffer = b } in
            let q1 = leads.buffers s b q in
            After-if Q (status != mi_err) _ (some (false, s1, w1))
              (read_card-After garbage stack s1 w1 q1) (leads.gives_up s1 q1)

    pub select_card-After :
        (garbage : ℕ) (stack key : List ℕ) (s : Reading S) (w : World)
        → B s
        → After Q (select_card m p locale logger garbage stack key s w)
    unfolding select_card After
    select_card-After garbage stack key s w q =
        After-on_outcome Q (select_tag m s.buffer s.serial garbage w) _ λ size b w1.
          let s1 = record s { buffer = b } in
          let q1 = leads.buffers s b q in
          After-if Q (size != mi_err) _ (some (false, s1, w1))
            (auth_card-After garbage stack key s1 (beep s.leds w1) q1) (leads.gives_up s1 q1)

pub same_bytes_refl : (n : List ℕ) → same_bytes n n ≡ true
unfolding same_bytes
same_bytes_refl [] = refl
same_bytes_refl (x ∷ xs) = let e : (x == x) ≡ true = ==_true refl in rw (e, same_bytes_refl xs) refl
