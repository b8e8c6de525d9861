-- ===== src/CardReader/Storing.antt =====
-- What a look for a card may do to the store.
use dread.Base.{
  ℕ, ◌≡◌, ◌⊎◌, inl, inr, refl, subst, ◌∙◌, Bool, true, false, Option, none, some, List, ◌!=◌, ◌&&◌,
  if◌then◌else◌,
}
use dread.Hardware.{World, Port, delay}
use dread.Locale.{Locale}
use dread.Mifare.{MifareLite, Outcome, request, anticoll, mi_err, picc_req_idl}
use dread.Persistence.Interface.{Persistence, Stores}
use dread.CardReader.{
  Reading, Progress, same_bytes, on_outcome, select_card, identify, announce, announced,
  read_and_store,
}
use dread.CardReader.Progress.{
  same_bytes-≡, and_right, After, After-if, After-when, After-map, After-on_outcome, Survives,
  select_card-After, survives-Leads,
}

module _ (m : MifareLite) {S : Type 0} (p : Persistence S) (locale : Locale) (logger : Port) where
  serials-Survive : (a b : List ℕ) → Survives p (λ s. (s.serial ≡ a) × (s.last_serial ≡ b))
  serials-Survive a b = record {
    buffers = λ s b q. q;
    begins = λ s t q. q;
    stores = λ s r d w q. q;
  }

  store-Survives : (P : S → Type 0) → Stores p P → Survives p (λ s. P s.store)
  store-Survives P st = record {
    buffers = λ s b q. q;
    begins = λ s t q. st.begins t s.store q;
    stores = λ s r d w q. st.commits _ (st.writes r 13 d s.store w q);
  }

  -- What is known before the user is told: the last serial number is the old one, and the store is
  -- the old one unless the card's serial number is the last one.
  abbrev Seen : Reading S → Reading S → Type 0
  Seen s s' =
      (s'.last_serial ≡ s.last_serial) × ((s'.store ≡ s.store) ⊎ (s'.serial ≡ s.last_serial))

  identify-Seen :
      (garbage : ℕ) (stack key : List ℕ) (s : Reading S) (w : World)
      → After (Seen s) (identify m p locale logger garbage stack key s w)
  unfolding identify After
  identify-Seen garbage stack key s w =
      After-on_outcome (Seen s) (anticoll m s.serial garbage w) _ λ status serial w1.
        let s1 = record s { serial = serial } in
        let known : Reading S → Type 0 =
          λ s'. (s'.serial ≡ serial) × (s'.last_serial ≡ s.last_serial) in
        After-when (Seen s) ((status != mi_err) && same_bytes serial s.last_serial)
          (select_card m p locale logger garbage stack key s1 w1) (some (status != mi_err, s1, w1))
          (λ e.
            After-map known (Seen s) (select_card m p locale logger garbage stack key s1 w1)
              (λ s' h. (
                h.1,
                inr (h.0 ∙ same_bytes-≡ serial s.last_serial (and_right (status != mi_err) _ e)),
              ))
              (select_card-After m p locale logger known known
                (survives-Leads m p locale logger known (serials-Survive serial s.last_serial))
                garbage stack key s1 w1 (refl, refl)))
          (refl, inl refl)

  -- The same of a result that was announced.
  unfoldable pub Told : (Reading S → Type 0) → Option (Reading S × World) → Type 0
  Told Q none = Unit {0}
  Told Q (some (s, w)) = Q s

  pub Told-announced :
      (Q R : Reading S → Type 0) (o : Progress S)
      → ((b : Bool) (s : Reading S) (w : World) → Q s → R (announce m p locale logger (b, s, w)).0)
      → After Q o
      → Told R (announced m p locale logger o)
  unfolding After Told announced
  Told-announced Q R none f h = tt
  Told-announced Q R (some (b, s, w)) f h = f b s w h

  Told-if :
      (R : Reading S → Type 0) (b : Bool) (o o' : Option (Reading S × World))
      → Told R o
      → Told R o'
      → Told R (if b then o else o')
  Told-if R true o o' h h' = h
  Told-if R false o o' h h' = h'

  pub Told-read :
      (Q R : Reading S → Type 0) (garbage : ℕ) (stack key : List ℕ) (s : Reading S) (w : World)
      → ((buffer : List ℕ) → R (record s { buffer = buffer }))
      → ((b : Bool) (s : Reading S) (w : World) → Q s → R (announce m p locale logger (b, s, w)).0)
      → ((buffer : List ℕ) (w : World)
          → After Q (identify m p locale logger garbage stack key (record s { buffer = buffer }) w))
      → Told R (read_and_store m p locale logger garbage stack key s w)
  unfolding read_and_store Told
  Told-read Q R garbage stack key s w none_found told found =
      go (request m picc_req_idl s.buffer garbage w)
    where
      go :
          (o : Outcome)
          → Told R (
              on_outcome o λ status buffer w1.
                let s1 = record s { buffer = buffer } in
                let card =
                  announced m p locale logger
                    (identify m p locale logger garbage stack key s1 w1) in
                if status != mi_err then card else some (s1, delay 500 w1))
      go (status, none, w1) = tt
      go (status, some buffer, w1) =
          let s1 = record s { buffer = buffer } in
          let o = identify m p locale logger garbage stack key s1 w1 in
          Told-if R (status != mi_err) (announced m p locale logger o) (some (s1, delay 500 w1))
            (Told-announced Q R o told (found buffer w1)) (none_found buffer)

  -- Only a card whose serial number is the one that was read last changes the store, whatever the card
  -- answers in the bounds of its buffers, so that the call returns, and whatever the persistence does;
  -- and the number kept is the old one or that of the card. An answer that is longer than its buffer
  -- is not covered: it overwrites what lies behind the buffer, the last serial number included.
  pub read_and_store-last :
      (garbage : ℕ) (stack key : List ℕ) (s s' : Reading S) (w w' : World)
      → read_and_store m p locale logger garbage stack key s w ≡ some (s', w')
      → ((s'.store ≡ s.store) ⊎ (s'.serial ≡ s.last_serial))
        × ((s'.last_serial ≡ s.last_serial) ⊎ (s'.last_serial ≡ s'.serial))
  unfolding Told announce
  read_and_store-last garbage stack key s s' w w' e = subst (Told result) e (
      Told-read (Seen s) result garbage stack key s w (λ b. (inl refl, inl refl)) told
        λ b w1. identify-Seen garbage stack key (record s { buffer = b }) w1)
    where
      result : Reading S → Type 0
      result s' =
          ((s'.store ≡ s.store) ⊎ (s'.serial ≡ s.last_serial))
          × ((s'.last_serial ≡ s.last_serial) ⊎ (s'.last_serial ≡ s'.serial))

      told :
          (b : Bool) (s1 : Reading S) (w1 : World)
          → Seen s s1
          → result (announce m p locale logger (b, s1, w1)).0
      told true s1 w1 (l, h) = (h, inr refl)
      told false s1 w1 (l, h) = (h, inl l)

  identify-keeps :
      (P : S → Type 0)
      → Stores p P
      → (garbage : ℕ) (stack key : List ℕ) (s : Reading S) (w : World) → P s.store
      → After (λ s. P s.store) (identify m p locale logger garbage stack key s w)
  unfolding identify After
  identify-keeps P st garbage stack key s w q =
      let Q : Reading S → Type 0 = λ s. P s.store in
      After-on_outcome Q (anticoll m s.serial garbage w) _ λ status serial w1.
        let s1 = record s { serial = serial } in
        After-if Q ((status != mi_err) && same_bytes serial s.last_serial)
          (select_card m p locale logger garbage stack key s1 w1) (some (status != mi_err, s1, w1))
          (select_card-After m p locale logger Q Q
            (survives-Leads m p locale logger Q (store-Survives P st)) garbage stack key s1 w1 q)
          q

  -- What survives the calls of a persistence survives the look for a card.
  pub read_and_store-keeps :
      (P : S → Type 0)
      → Stores p P
      → (garbage : ℕ) (stack key : List ℕ) (s s' : Reading S) (w w' : World)
      → read_and_store m p locale logger garbage stack key s w ≡ some (s', w')
      → P s.store
      → P s'.store
  unfolding Told announce
  read_and_store-keeps P st garbage stack key s s' w w' e h = subst (Told λ s. P s.store) e (
      Told-read (λ s. P s.store) (λ s. P s.store) garbage stack key s w (λ b. h) told
        λ b w1. identify-keeps P st garbage stack key (record s { buffer = b }) w1 h)
    where
      told :
          (b : Bool) (s1 : Reading S) (w1 : World)
          → P s1.store
          → P (announce m p locale logger (b, s1, w1)).0.store
      told true s1 w1 q = q
      told false s1 w1 q = q
