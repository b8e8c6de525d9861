-- ===== src/Scheduler.antt =====
-- Support/Scheduler/Scheduler.cpp: the list of subscriptions. The nodes belong to their owners, so the
-- list is a chain through a store of nodes; a node's address is a number, and the addresses count
-- from 0. A called subscription is noted by its function; it is taken not to change the list.
pub mod Chain
pub mod Appending
pub mod Membership
mod Tests
use dread.Base.{
  ℕ, zero, suc, ◌+◌, ◌%◌, Bool, true, false, Option, none, some, List, [], ◌∷◌, ◌==◌, u16,
  if◌then◌else◌,
}
use dread.Hardware.{update}

-- `next` is `none` for NULL. `subscription` stands for the address of the function.
pub record Subscription : Type 0 where
  pub subscription : ℕ
  pub timeout : ℕ
  pub next : Option ℕ

abbrev pub Store : Type 0
Store = ℕ → Subscription

pub record Scheduler : Type 0 where
  pub subscriptions : Option ℕ
  pub tick : ℕ
  pub store : Store

unfoldable pub new : Store → Scheduler
new store = record { subscriptions = none; tick = 0; store = store }

abbrev pub set_next : Store → ℕ → Option ℕ → Store
set_next h p n = update h p (record (h p) { next = n })

-- The loop of `callSubscriptions`: the functions called, in their order. `none` is fuel that ran out,
-- or the division by a timeout of 0.
abbrev pub called : ℕ → Subscription → Option (List ℕ) → Option (List ℕ)
called tick s none = none
called tick s (some fs) =
    if s.timeout == 0
    then none
    else (if tick % s.timeout == 0 then some (s.subscription ∷ fs) else some fs)

unfoldable pub call_from : ℕ → Store → ℕ → Option ℕ → Option (List ℕ)
call_from fuel h tick none = some []
call_from zero h tick (some it) = none
call_from (suc fuel) h tick (some it) = called tick (h it) (call_from fuel h tick (h it).next)

unfoldable pub call_subscriptions : ℕ → Scheduler → Option (List ℕ) × Scheduler
call_subscriptions fuel s =
    let tick' = u16 (s.tick + 1) in
    (call_from fuel s.store tick' s.subscriptions, record s { tick = tick' })

-- The loop of `subscribe` from a node on, whose `next` is given: a node that is not the last is compared
-- with the new node `p`.
unfoldable pub append_from : ℕ → Store → ℕ → ℕ → Option ℕ → Option Store
append_from zero h p it next = none
append_from (suc fuel) h p it none = some (set_next (set_next h it (some p)) p none)
append_from (suc fuel) h p it (some n) =
    let rest = append_from fuel h p n (h n).next in
    if (h it).subscription == (h p).subscription then some h else rest

abbrev pub with_store : Scheduler → Option Store → Option Scheduler
with_store s none = none
with_store s (some h) = some (record s { store = h })

unfoldable pub subscribe_at : ℕ → Scheduler → ℕ → Option ℕ → Option Scheduler
subscribe_at fuel s p none =
    some (record s { subscriptions = some p; store = set_next s.store p none })
subscribe_at fuel s p (some it) = with_store s (append_from fuel s.store p it (s.store it).next)

unfoldable pub subscribe : ℕ → Scheduler → ℕ → Option Scheduler
unfolding subscribe_at
subscribe fuel s p = subscribe_at fuel s p s.subscriptions

-- The loop of `unsubscribe`. `it` is `none` while it points to the local node `prev`, whose `next` is
-- `head`; `next` is `it->next`.
unfoldable pub remove_from :
    ℕ → Store → Option ℕ → ℕ → Option ℕ → Option ℕ → Option (Option ℕ × Store)
remove_from zero h head p it next = none
remove_from (suc fuel) h head p it none = some (head, h)
remove_from (suc fuel) h head p none (some n) =
    let unlinked = remove_from fuel h (h n).next p none (h n).next in
    let passed = remove_from fuel h head p (some n) (h n).next in
    if n == p then unlinked else passed
remove_from (suc fuel) h head p (some i) (some n) =
    let h' = set_next h i (h n).next in
    let unlinked = remove_from fuel h' head p (some i) (h' i).next in
    let passed = remove_from fuel h head p (some n) (h n).next in
    if n == p then unlinked else passed

abbrev pub with_head : Scheduler → Option (Option ℕ × Store) → Option Scheduler
with_head s none = none
with_head s (some (head, h)) = some (record s { subscriptions = head; store = h })

unfoldable pub unsubscribe_at : ℕ → Scheduler → ℕ → Option ℕ → Option Scheduler
unsubscribe_at fuel s p none = some s
unsubscribe_at fuel s p (some n) = with_head s (remove_from fuel s.store (some n) p none (some n))

unfoldable pub unsubscribe : ℕ → Scheduler → ℕ → Option Scheduler
unfolding unsubscribe_at
unsubscribe fuel s p = unsubscribe_at fuel s p s.subscriptions
