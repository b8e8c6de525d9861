-- ===== src/Devices/Timer.antt =====
-- The timer of a device with its two subscriptions.
use dread.Base.{
  ℕ, zero, suc, ◌+◌, ◌*◌, ◌%◌, ◌≡◌, refl, ap, sym, subst, ◌∙◌, Bool, true, false, some, List, [],
  ◌∷◌, ◌++◌, ◌==◌, u16, if◌then◌else◌, arith,
}
use dread.Scheduler.{Scheduler, call_subscriptions}
use dread.Scheduler.Chain.{Chain, Divides, due, call_subscriptions-due}
use dread.Devices.{hid_check, client_check, int_sec, int_minutes}
use dread.Devices.Setup.{times}

-- The list has the nodes 0 and 1, with the functions and the timeouts of the launchers.
pub record IsTimed (s : Scheduler) : Type 0 where
  pub listed : Chain s.store s.subscriptions (0 ∷ 1 ∷ [])
  pub hid_function : (s.store 0).subscription ≡ hid_check
  pub hid_timeout : (s.store 0).timeout ≡ int_sec
  pub client_function : (s.store 1).subscription ≡ client_check
  pub client_timeout : (s.store 1).timeout ≡ 5 * int_minutes

-- What is called at a tick: the leds at every fifth one, the client at every 1500th.
unfoldable pub calls_at : ℕ → List ℕ
calls_at k =
    (if k % 5 == 0 then hid_check ∷ [] else []) ++ (if k % 1500 == 0 then client_check ∷ [] else [])

abbrev pub ticked : Scheduler → Scheduler
ticked s = (call_subscriptions 2 s).1

if-append :
    (b c : Bool) (x y : ℕ)
    → (if b then x ∷ (if c then y ∷ [] else []) else (if c then y ∷ [] else []))
      ≡ (if b then x ∷ [] else []) ++ (if c then y ∷ [] else [])
if-append true c x y = refl
if-append false c x y = refl

due-IsTimed : (s : Scheduler) (k : ℕ) → IsTimed s → due s.store k (0 ∷ 1 ∷ []) ≡ calls_at k
unfolding due calls_at
due-IsTimed s k t =
    rw (t.hid_function, t.hid_timeout, t.client_function, t.client_timeout)
      (if-append (k % 5 == 0) (k % 1500 == 0) hid_check client_check)

pub call_subscriptions-IsTimed :
    (s : Scheduler)
    → IsTimed s
    → call_subscriptions 2 s
      ≡ (some (calls_at (u16 (s.tick + 1))), record s { tick = u16 (s.tick + 1) })
unfolding Divides
call_subscriptions-IsTimed s t =
    call_subscriptions-due 2 s (0 ∷ 1 ∷ []) t.listed
      ((λ e. omega (arith, t.hid_timeout, e)), ((λ e. omega (arith, t.client_timeout, e)), tt))
      (omega arith)
    ∙ ap (λ c. (some c, record s { tick = u16 (s.tick + 1) })) (due-IsTimed s (u16 (s.tick + 1)) t)

pub ticked-IsTimed : (s : Scheduler) → IsTimed s → IsTimed (ticked s)
ticked-IsTimed s t =
    subst (λ r. IsTimed r.1) (sym (call_subscriptions-IsTimed s t))
      (record {
        listed = t.listed;
        hid_function = t.hid_function;
        hid_timeout = t.hid_timeout;
        client_function = t.client_function;
        client_timeout = t.client_timeout;
      })

ticked-tick : (s : Scheduler) → IsTimed s → (ticked s).tick ≡ u16 (s.tick + 1)
ticked-tick s t = ap (λ r. r.1.tick) (call_subscriptions-IsTimed s t)

-- From a scheduler with the two subscriptions and the tick `t`, the tick after `n` interrupts is `t + n`
-- modulo 2^16, and the next interrupt calls the leds if 5 divides the tick that follows it, and the client
-- if 1500 does: the count starts anew at 2^16, which neither divides.
pub ticks_lem :
    (n : ℕ) (s : Scheduler)
    → IsTimed s
    → let s' = times ticked n s in
      IsTimed s'
      × (u16 s'.tick ≡ u16 (s.tick + n))
      × ((call_subscriptions 2 s').0 ≡ some (calls_at (u16 (s.tick + suc n))))
unfolding times
ticks_lem zero s t = (t, omega arith, ap (λ r. r.0) (call_subscriptions-IsTimed s t))
ticks_lem (suc n) s t =
    let (timed, tick, calls) = ticks_lem n (ticked s) (ticked-IsTimed s t) in
    let e = ticked-tick s t in
    (timed, omega arith, calls ∙ ap (λ k. some (calls_at k)) (omega arith))
