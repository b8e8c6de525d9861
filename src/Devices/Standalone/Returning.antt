-- ===== src/Devices/Standalone/Returning.antt =====
-- Which calls of a standalone device always return.
use dread.Base.{ℕ, ◌≡◌, ◌⊎◌, inl, inr, refl, ap, ◌∙◌, Bool, Option, none, some, List, ◌+◌, u16}
use dread.Hardware.{World}
use dread.Hardware.Monad.{bind_run, pure}
use dread.Locale.{Locale}
use dread.Fsm.{Machine, State, Transition}
use dread.Connection.{ConnectionHandler, handle_connection_status}
use dread.Connection.Queue.{handle_connection_status-new}
use dread.Modem.{is_connected}
use dread.Persistence.File.{FileStore}
use dread.Persistence.File.Library.{SdLibrary}
use dread.DreadClient.{upload_from_persistence}
use dread.Scheduler.{Scheduler, call_subscriptions}
use dread.Devices.{lift}
use dread.Devices.Timer.{calls_at}
use dread.Devices.Standalone.{
  Standalone, Place, at_card, at_status, at_modem, at_upload, answer, interrupt, step,
}
use dread.Devices.Standalone.Running.{Runs, Runs-lem}

-- The run has a value.
abbrev pub Returned : {A : Type 0} → Option (A × World) → Type 0
Returned {A} o = (a : A) × (w : World) × (o ≡ some (a, w))

answer-Returned :
    {F H : Type 0} (s : Standalone F H) (w : World) (o : Option (List ℕ)) (scheduler : Scheduler)
    (fs : List ℕ)
    → o ≡ some fs
    → Returned (answer s (o, scheduler) w)
answer-Returned s w none scheduler fs e = cc
answer-Returned s w (some gs) scheduler fs e = (_, _, refl)

lift-Returned :
    {A B : Type 0} (o : Option A) (a : A) (f : A → B) (w : World)
    → o ≡ some a
    → Returned (bind_run (lift o w) λ a. pure (f a))
lift-Returned none a f w e = cc
lift-Returned (some b) a f w e = (f b, w, refl)

then-Returned :
    {A B : Type 0} (o : Option (A × World)) (f : A → B)
    → Returned o
    → Returned (bind_run o λ a. pure (f a))
then-Returned none f (a, w, e) = cc
then-Returned (some (b, w)) f r = (f b, w, refl)

module _ {F H : Type 0} (sd : SdLibrary F H) (locale : Locale)
    (run_guard : ℕ → Machine → State → Bool) (run_action : ℕ → Machine → Machine) where
  step-Returned :
      (fuel garbage : ℕ) (stack : List ℕ) (unset : Transition) (closed : Bool) (a : Place)
      (s : Standalone F H) (w : World) (c : ConnectionHandler)
      → handle_connection_status run_guard run_action unset s.handler ≡ some c
      → (a ≡ at_card)
        ⊎ Returned (step sd locale run_guard run_action fuel garbage stack unset closed a s w)
  unfolding step upload_from_persistence is_connected
  step-Returned fuel garbage stack unset closed at_card s w c e = inl refl
  step-Returned fuel garbage stack unset closed at_status s w c e = inr (
      then-Returned _ (λ s1. (at_modem, s1))
        (lift-Returned (handle_connection_status run_guard run_action unset s.handler) c
          (λ h. record s { handler = h }) w e))
  step-Returned fuel garbage stack unset closed at_modem s w c e = inr (_, _, refl)
  step-Returned fuel garbage stack unset closed at_upload s w c e = inr (_, _, refl)

  -- In every state of a standalone device the interrupt returns, and so does the next call of `loop`,
  -- unless it is that of the card reader, with any fuel at all.
  pub Runs-Returned :
      (store : FileStore F H) (a : Place) (s : Standalone F H) (w : World) (fuel garbage : ℕ)
      (stack : List ℕ) (unset : Transition) (closed : Bool)
      → Runs sd locale run_guard run_action store a s w
      → Returned (interrupt s w)
        × ((a ≡ at_card)
            ⊎ Returned (step sd locale run_guard run_action fuel garbage stack unset closed a s w))
  unfolding interrupt
  Runs-Returned store a s w fuel garbage stack unset closed r =
      let (named, handler, calls) = Runs-lem sd locale run_guard run_action store a s w r in
      (
        answer-Returned s w (call_subscriptions 2 s.scheduler).0
            (call_subscriptions 2 s.scheduler).1 (calls_at (u16 (s.scheduler.tick + 1))) calls,
        step-Returned fuel garbage stack unset closed a s w _ (
            ap (handle_connection_status run_guard run_action unset) handler
            ∙ handle_connection_status-new run_guard run_action unset),
      )
