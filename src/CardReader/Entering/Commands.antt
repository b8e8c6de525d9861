-- ===== src/CardReader/Entering/Commands.antt =====
-- A command to a card and what follows it: how what is known of the end carries over.
use dread.Base.{
  [], ℕ, ◌≡◌, ◌⊎◌, inl, inr, refl, sym, ap, subst, Bool-cases, Bool, true, false, Option, none,
  some, List, ◌!=◌, if◌then◌else◌, some_inj, arith,
}
use dread.Hardware.{World, Port}
use dread.Locale.{Locale, get_date_time}
use dread.Mifare.{MifareLite, Outcome, mi_err}
use dread.Persistence.Interface.{Persistence, store_one, write_transaction}
use dread.CardReader.{Reading, Progress, on_outcome, record_of, dated, store_record}
use dread.CardReader.Progress.{After, After-either, After-map}
use dread.CardReader.Succeeding.{Answers, NoError}

-- What a command gives is determined.
module _ {Ok : ℕ → List ℕ → Type 0} {Next : List ℕ → World → Type 0} where
  pub Answers-inv :
      (st : ℕ) (b : List ℕ) (w : World) → Answers (st, some b, w) Ok Next → Ok st b × Next b w
  Answers-inv st b w x =
      let e : some x.buffer ≡ some b = sym (ap (λ o. o.1) x.outcome) in
      let same = some_inj e in
      let at : x.world ≡ w = sym (ap (λ o. o.2) x.outcome) in
      (
        subst (λ n. Ok n b) (sym (ap (λ o. o.0) x.outcome)) (subst (Ok x.status) same x.ok),
        subst (Next b) at (subst (λ l. Next l x.world) same x.further),
      )

module _ (m : MifareLite) {S : Type 0} (p : Persistence S) (locale : Locale) (logger : Port) where
  -- A block enters the store: as one entry with the date that is made in its buffer, by begin, write and
  -- commit, or not at all where begin fails.
  unfoldable pub Entered : List ℕ → S → S → Type 0
  Entered b st st' =
      let begun = p.begin_transaction write_transaction st in
      ((begun.0 ≡ false) × (st' ≡ begun.1))
      ⊎ ((d : List ℕ) × (v : World) × (begun.0 ≡ true)
          × (get_date_time locale b ≡ some d)
          × (st' ≡ (store_one p (record_of b, d, 13) (st, v)).0))

  -- Exactly the block that is read enters the store, and without one nothing does.
  unfoldable pub Follows : (List ℕ → Type 0) → S → S → Type 0
  Follows IsRead st st' =
      ((b : List ℕ) × IsRead b × Entered b st st') ⊎ (((b : List ℕ) → IsRead b → ⊥) × (st' ≡ st))

  pub Follows-map :
      (P Q : List ℕ → Type 0) (st st' : S)
      → ((b : List ℕ) → P b → Q b)
      → ((b : List ℕ) → Q b → P b)
      → Follows P st st'
      → Follows Q st st'
  unfolding Follows
  Follows-map P Q st st' f g (inl (b, x, e)) = inl (b, f b x, e)
  Follows-map P Q st st' f g (inr (no_, e)) = inr ((λ b y. no_ b (g b y)), e)

  abbrev pub Leads : (List ℕ → Type 0) → S → Progress S → Type 0
  Leads P st o = After (λ s'. Follows P st s'.store) o

  -- A command and what follows it, or the end of the call.
  module _ (st : S) (Ok : ℕ → List ℕ → Type 0) (Next : List ℕ → List ℕ → World → Type 0)
      (test : ℕ → List ℕ → Bool) (accepted : (n : ℕ) (b : List ℕ) → test n b ≡ true → Ok n b)
      (refused : (n : ℕ) (b : List ℕ) → test n b ≡ false → Ok n b → ⊥)
      (rest : List ℕ → World → Progress S) (result : ℕ → Bool) (state : List ℕ → Reading S)
      (kept : (b : List ℕ) → (state b).store ≡ st)
      (leads : (b : List ℕ) (w : World) → Leads (λ block. Next block b w) st (rest b w)) where
    pub command-Leads :
        (o : Outcome)
        → Leads
            (λ block. Answers o Ok (Next block))
            st
            (on_outcome o λ n b w. if test n b then rest b w else some (result n, state b, w))
    unfolding After Follows
    command-Leads (n, none, w) = tt
    command-Leads (n, some b, w) = elim (Bool-cases (test n b)) [
      | inl on ↦ rw on (
          After-map (λ s'. Follows (λ block. Next block b w) st s'.store)
            (λ s'. Follows (λ block. Answers (n, some b, w) Ok (Next block)) st s'.store) (rest b w)
            (λ s' f.
              Follows-map (λ block. Next block b w)
                (λ block. Answers (n, some b, w) Ok (Next block)) st s'.store
                (λ block y. record {
                  status = n;
                  buffer = b;
                  world = w;
                  outcome = refl;
                  ok = accepted n b on;
                  further = y;
                })
                (λ block y. (Answers-inv n b w y).1) f)
            (leads b w))
      | inr off ↦ rw off (stopped off)
    ]
      where
        stopped :
            test n b ≡ false
            → Follows (λ block. Answers (n, some b, w) Ok (Next block)) st (state b).store
        stopped off = inr ((λ block y. refused n b off (Answers-inv n b w y).0), kept b)

  pub no_error : (n : ℕ) → (n != mi_err) ≡ true → NoError n []
  no_error n e = ground arith

  pub an_error : (n : ℕ) → (n != mi_err) ≡ false → NoError n [] → ⊥
  an_error n e = ground arith

  pub store_record-Leads :
      (s : Reading S) (w : World)
      → Leads (λ block. s.buffer ≡ block) s.store (store_record m p locale logger s w)
  unfolding store_record After Follows Entered store_one
  store_record-Leads s w =
      let begun = p.begin_transaction write_transaction s.store in
      let s1 = record s { store = begun.1 } in
      let Q : Reading S → Type 0 = λ s'. Follows (λ block. s.buffer ≡ block) s.store s'.store in
      After-either Q begun.0
        (dated m p locale logger (record_of s.buffer) s1 w (get_date_time locale s.buffer))
        (some (false, s1, w)) (λ ok. done ok (get_date_time locale s.buffer) refl)
        λ no_. inl (s.buffer, refl, inl (no_, refl))
    where
      done :
          (p.begin_transaction write_transaction s.store).0 ≡ true
          → (o : Option (List ℕ)) → get_date_time locale s.buffer ≡ o
          → Leads
              (λ block. s.buffer ≡ block)
              s.store
              (dated m p locale logger
                (record_of s.buffer)
                (record s { store = (p.begin_transaction write_transaction s.store).1 })
                w
                o)
      done ok none e = tt
      done ok (some d) e = inl (s.buffer, refl, inr (d, w, ok, e, rw ok refl))
