-- ===== src/Modem/Waiting.antt =====
-- What it means that a wait for a response succeeds.
use dread.Base.{
  ℕ, zero, suc, ◌<◌, ◌≡◌, ◌⊎◌, inl, inr, refl, sym, ap, subst, ◌∙◌, Bool, true, false, not, some,
  List, [], ◌∷◌, ◌++◌, ◌&&◌, ltb, sub_u32, take, take-length, length, append-nil,
}
use dread.Base.Avoiding.{Avoids}
use dread.Hardware.{World, wrote, millis}
use dread.Hardware.Output.{println}
use dread.Hardware.Returns.{Ends, Ends-then, Ends-if, Ends-value}
use dread.Modem.Commands.{Sim900, match_response, wait_loop, wait_for}
use dread.Modem.Matching.{
  received, received-append, Seen, Status, Good, Seen-trace, match_response-Good,
}

second_false : (a b : Bool) → (a && not b) ≡ true → b ≡ false
second_false true true h = cc
second_false true false h = refl
second_false false b h = cc

module _ (s : Sim900) (expected : List ℕ) (no_end : Avoids 13 expected)
    (short : length expected < 256) (some_byte : 0 < length expected) (start : List ℕ) where
  -- What was found, if it was.
  Found : Bool → World → Type 0
  Found success w =
      (success ≡ false)
      ⊎ ((between : List ℕ) × (received s.hard_port w.trace ≡ (start ++ between) ++ expected))

  Found-Good :
      (success : Bool) (ptr : ℕ) (w : World)
      → (Good s expected no_end short some_byte start) (success, ptr) w
      → Found success w
  unfolding Found Seen Status
  Found-Good success ptr w (seen, inr (e, l)) = inl e
  Found-Good success ptr w ((between, e), inl (e', l)) = inr (
    between,
    e ∙ ap (λ t. (start ++ between) ++ t) (ap (λ i. take i expected) l ∙ take-length expected),
  )

  wait_loop-Found :
      (fuel timeout time ptr : ℕ) (success : Bool) (w : World)
      → (Good s expected no_end short some_byte start) (success, ptr) w
      → Ends Found (wait_loop s fuel expected timeout time ptr success w)
  unfolding wait_loop Ends
  wait_loop-Found zero timeout time ptr success w h = tt
  wait_loop-Found (suc fuel) timeout time ptr success w (seen, status) =
      let (now, w1) = millis w in
      let seen1 = (Seen-trace s expected no_end short some_byte start) ptr w w1 refl seen in
      Ends-if Found (ltb (sub_u32 now time) timeout && not success) _ (some (success, w1))
        (λ e.
          Ends-then (Good s expected no_end short some_byte start) Found
            (match_response s fuel expected ptr false w1) _
            ((match_response-Good s expected no_end short some_byte start) fuel ptr false w1 (
              seen1,
              subst (λ b. (Status s expected no_end short some_byte start) b ptr)
                  (second_false (ltb (sub_u32 now time) timeout) success e) status,
            ))
            λ r w2 g. wait_loop-Found fuel timeout time r.1 r.0 w2 g)
        λ _. Found-Good success ptr w1 (seen1, status)

  start-Good :
      (w : World)
      → received s.hard_port w.trace ≡ start
      → (Good s expected no_end short some_byte start) (false, 0) w
  unfolding Seen Status
  start-Good w e =
      (([], e ∙ sym (append-nil start) ∙ sym (append-nil (start ++ []))), inr (refl, some_byte))

  received-println :
      (w : World)
      → received s.hard_port (println s.soft_port w).trace ≡ received s.hard_port w.trace
  unfolding received
  received-println w =
      received-append s.hard_port (w.trace ++ (wrote s.soft_port 13 ∷ []))
        (wrote s.soft_port 10 ∷ [])
      ∙ append-nil _
      ∙ received-append s.hard_port w.trace (wrote s.soft_port 13 ∷ [])
      ∙ append-nil _

  Found-trace :
      (success : Bool) (w w' : World)
      → received s.hard_port w'.trace ≡ received s.hard_port w.trace
      → Found success w
      → Found success w'
  unfolding Found
  Found-trace success w w' e (inl f) = inl f
  Found-trace success w w' e (inr (between, h)) = inr (between, e ∙ h)

  wait_for-Found :
      (fuel timeout : ℕ) (w : World)
      → received s.hard_port w.trace ≡ start
      → Ends Found (wait_for s fuel expected timeout w)
  unfolding wait_for Ends
  wait_for-Found fuel timeout w e =
      Ends-then Found Found (wait_loop s fuel expected timeout (millis w).0 0 false (millis w).1) _
        (wait_loop-Found fuel timeout (millis w).0 0 false (millis w).1 (start-Good (millis w).1 e))
        λ success w1 f. Found-trace success w1 (println s.soft_port w1) (received-println w1) f

-- A wait for a response succeeds only if the response came: then the bytes that were read from the modem
-- since the call end with the response. This holds of every response of 1 to 255 bytes, none of them
-- the end mark.
pub wait_for-response :
    (s : Sim900) (fuel timeout : ℕ) (expected : List ℕ) (w w' : World)
    → Avoids 13 expected
    → 0 < length expected
    → length expected < 256
    → wait_for s fuel expected timeout w ≡ some (true, w')
    → (between : List ℕ) × (received s.hard_port w'.trace
        ≡ (received s.hard_port w.trace ++ between) ++ expected)
unfolding Found
wait_for-response s fuel timeout expected w w' n l h e =
    let start = received s.hard_port w.trace in
    elim (Ends-value (Found s expected n h l start) _ true w'
      (wait_for-Found s expected n h l start fuel timeout w refl) e) [ inl f ↦ cc | inr r ↦ r ]
