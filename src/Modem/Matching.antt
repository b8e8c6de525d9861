-- ===== src/Modem/Matching.antt =====
-- What it means that a response was found.
use dread.Base.{
  ℕ, zero, suc, ◌+◌, ◌<◌, ◌≤◌, ◌≡◌, ◌⊎◌, inl, inr, refl, sym, ap, ◌∙◌, Bool, true, false, not, some,
  List, [], ◌∷◌, ◌++◌, ◌==◌, ◌&&◌, u8, positive, if◌then◌else◌, take, length, arith, append_assoc,
  append-nil, ==_true, ==_false, ℕ_discrete,
}
use dread.Base.Avoiding.{Avoids}
use dread.Hardware.{World, Port, Effect, got, wrote, available, pop_byte, write}
use dread.Hardware.Returns.{Ends}
use dread.Modem.Commands.{Sim900, byte_at, advance, match_response}

-- The bytes that were read from a port, in order.
abbrev pub byte_from : Port → Effect → List ℕ
byte_from p (got q b) = if q == p then b ∷ [] else []
byte_from p _ = []

unfoldable pub received : Port → List Effect → List ℕ
received p [] = []
received p (e ∷ es) = byte_from p e ++ received p es

pub received-append :
    (p : Port) (xs ys : List Effect) → received p (xs ++ ys) ≡ received p xs ++ received p ys
unfolding received
received-append p [] ys = refl
received-append p (e ∷ xs) ys =
    ap (λ l. byte_from p e ++ l) (received-append p xs ys)
    ∙ sym (append_assoc (byte_from p e) (received p xs) (received p ys))

byte_at-inside : (xs : List ℕ) (i : ℕ) → Avoids 13 xs → i < length xs → (byte_at xs i == 13) ≡ false
unfolding Avoids
byte_at-inside [] i n l = absurd (omega arith)
byte_at-inside (x ∷ xs) zero n l = ==_false n.0
byte_at-inside (x ∷ xs) (suc i) n l = byte_at-inside xs i n.1 (omega arith)

byte_at-end : (xs : List ℕ) → (byte_at xs (length xs) == 13) ≡ true
byte_at-end [] = refl
byte_at-end (x ∷ xs) = byte_at-end xs

take-suc :
    (xs : List ℕ) (i : ℕ) → i < length xs → take (suc i) xs ≡ take i xs ++ (byte_at xs i ∷ [])
take-suc [] i l = absurd (omega arith)
take-suc (x ∷ xs) zero l = refl
take-suc (x ∷ xs) (suc i) l = ap (λ t. x ∷ t) (take-suc xs i (omega arith))

module _ (s : Sim900) (expected : List ℕ) (no_end : Avoids 13 expected)
    (short : length expected < 256) (some_byte : 0 < length expected) (start : List ℕ) where
  -- The bytes up to `start`, others, and the first `ptr` bytes of the response.
  unfoldable pub Seen : ℕ → World → Type 0
  Seen ptr w =
      (between : List ℕ) × (received s.hard_port w.trace ≡ (start ++ between) ++ take ptr expected)

  unfoldable pub Status : Bool → ℕ → Type 0
  Status result ptr =
      ((result ≡ true) × (ptr ≡ length expected)) ⊎ ((result ≡ false) × (ptr < length expected))

  abbrev pub Good : Bool × ℕ → World → Type 0
  Good r w = Seen r.1 w × Status r.0 r.1

  Status-at : (ptr : ℕ) → ptr ≤ length expected → Status (byte_at expected ptr == 13) ptr
  unfolding Status
  Status-at ptr l = elim (ℕ_discrete ptr (length expected)) [
    | yes e ↦ inl (ap (λ i. byte_at expected i == 13) e ∙ byte_at-end expected, e)
    | no n ↦ inr (byte_at-inside expected ptr no_end (omega arith), omega arith)
  ]

  -- One byte more.
  advance-Seen :
      (ptr b : ℕ) (w w' : World)
      → ptr < length expected
      → Seen ptr w
      → received s.hard_port w'.trace ≡ received s.hard_port w.trace ++ (b ∷ [])
      → Seen (advance expected ptr b) w' × (advance expected ptr b ≤ length expected)
  unfolding Seen advance
  advance-Seen ptr b w w' l (between, e) e' = elim (ℕ_discrete b (byte_at expected ptr)) [
    | yes m ↦
        let next : u8 (ptr + 1) ≡ suc ptr = omega arith in
        rw (==_true m, next)
          (
            (
              between,
              e'
                  ∙ ap (λ r. r ++ (b ∷ [])) e
                  ∙ append_assoc (start ++ between) (take ptr expected) (b ∷ [])
                  ∙ ap (λ x. (start ++ between) ++ (take ptr expected ++ (x ∷ []))) m
                  ∙ ap (λ t. (start ++ between) ++ t) (sym (take-suc expected ptr l)),
            ),
            l,
          )
    | no m ↦ rw (==_false m) (
      (
        between ++ (take ptr expected ++ (b ∷ [])),
        e'
            ∙ ap (λ r. r ++ (b ∷ [])) e
            ∙ append_assoc (start ++ between) (take ptr expected) (b ∷ [])
            ∙ append_assoc start between (take ptr expected ++ (b ∷ []))
            ∙ sym (append-nil (start ++ (between ++ (take ptr expected ++ (b ∷ []))))),
      ),
      omega arith,
    )
  ]

  pub Seen-trace : (ptr : ℕ) (w w' : World) → w'.trace ≡ w.trace → Seen ptr w → Seen ptr w'
  unfolding Seen
  Seen-trace ptr w w' e (between, h) = (between, ap (received s.hard_port) e ∙ h)

  -- The echo of a byte that was read.
  received-echo :
      (b : ℕ) (w : World)
      → received s.hard_port
          ((w.trace ++ (got s.hard_port b ∷ [])) ++ (wrote s.soft_port (u8 b) ∷ []))
        ≡ received s.hard_port w.trace ++ (b ∷ [])
  unfolding received
  received-echo b w =
      let same : (s.hard_port == s.hard_port) ≡ true = ==_true refl in
      received-append s.hard_port (w.trace ++ (got s.hard_port b ∷ []))
        (wrote s.soft_port (u8 b) ∷ [])
      ∙ append-nil _
      ∙ received-append s.hard_port w.trace (got s.hard_port b ∷ [])
      ∙ ap (λ c. received s.hard_port w.trace ++ ((if c then b ∷ [] else []) ++ [])) same

  not_yet : (ptr : ℕ) → Status false ptr → ptr < length expected
  unfolding Status
  not_yet ptr (inl (e, l)) = cc
  not_yet ptr (inr (e, l)) = l

  -- One round of the loop, when the bytes `bs` wait and the further rounds are known.
  round-Good :
      (fuel ptr : ℕ) (result : Bool) (w : World) (bs : List ℕ)
      → ((ptr : ℕ) (result : Bool) (w : World)
          → Good (result, ptr) w
          → Ends Good (match_response s fuel expected ptr result w))
      → Good (result, ptr) w
      → let r = pop_byte s.hard_port w bs in
        let ptr' = advance expected ptr r.0 in
        Ends Good (
          if positive (length bs) && not result
          then match_response s fuel expected ptr'
              (byte_at expected ptr' == 13)
              (write s.soft_port r.0 r.1)
          else some ((result, ptr), w))
  unfolding Ends
  round-Good fuel ptr result w [] further h = h
  round-Good fuel ptr true w (b ∷ bs) further h = h
  round-Good fuel ptr false w (b ∷ bs) further (seen, status) =
      let r = pop_byte s.hard_port w (b ∷ bs) in
      let (seen', l) =
        advance-Seen ptr (u8 b) w (write s.soft_port r.0 r.1) (not_yet ptr status) seen
          (received-echo (u8 b) w) in
      further (advance expected ptr r.0) _ _ (seen', Status-at _ l)

  pub match_response-Good :
      (fuel ptr : ℕ) (result : Bool) (w : World)
      → Good (result, ptr) w
      → Ends Good (match_response s fuel expected ptr result w)
  unfolding match_response Ends
  match_response-Good zero ptr result w h = tt
  match_response-Good (suc fuel) ptr result w (seen, status) =
      let w1 = (available s.hard_port w).1 in
      round-Good fuel ptr result w1 (w1.rx s.hard_port) (match_response-Good fuel)
        (Seen-trace ptr w w1 refl seen, status)
