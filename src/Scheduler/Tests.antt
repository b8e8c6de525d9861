-- ===== src/Scheduler/Tests.antt =====
-- Runs of a scheduler with three subscriptions.
use dread.Base.{ℕ, zero, suc, ◌≡◌, refl, none, some, List, [], ◌∷◌, arith, u16, ◌+◌}
use dread.Scheduler.{Store, Scheduler, call_subscriptions, subscribe, unsubscribe}
use dread.Scheduler.Chain.{Chain, NotIn, Distinct, Divides, due, call_subscriptions-due}
use dread.Scheduler.Appending.{with_new, subscribe-Chain}
use dread.Scheduler.Membership.{without, unsubscribe-Chain}

-- The nodes 0, 1 and 2 with the functions 100, 101 and 102; node 3 has the function of node 1.
abbrev nodes : Store
nodes zero = record { subscription = 100; timeout = 1; next = some 1 }
nodes (suc zero) = record { subscription = 101; timeout = 2; next = some 2 }
nodes (suc (suc zero)) = record { subscription = 102; timeout = 5; next = none }
nodes (suc (suc (suc n))) = record { subscription = 101; timeout = 5; next = none }

abbrev three : Scheduler
three = record { subscriptions = some 0; tick = 9; store = nodes }

abbrev listed : List ℕ
listed = 0 ∷ 1 ∷ 2 ∷ []

listed-Chain : Chain nodes (some 0) listed
unfolding Chain
listed-Chain = (refl, (refl, (refl, refl)))

listed-Distinct : Distinct listed
unfolding Distinct NotIn
listed-Distinct =
    (((λ e. omega arith), ((λ e. omega arith), tt)), (((λ e. omega arith), tt), (tt, tt)))

listed-Divides : Divides nodes listed
unfolding Divides
listed-Divides = ((λ e. omega arith), ((λ e. omega arith), ((λ e. omega arith), tt)))

three-NotIn : NotIn 3 listed
unfolding NotIn
three-NotIn = ((λ e. omega arith), ((λ e. omega arith), ((λ e. omega arith), tt)))

all_due : due nodes 10 listed ≡ 100 ∷ 101 ∷ 102 ∷ []
unfolding due
all_due = refl

call_subscriptions-due_example :
    call_subscriptions 3 three
    ≡ (some (due nodes (u16 (three.tick + 1)) listed), record three { tick = u16 (three.tick + 1) })
call_subscriptions-due_example =
    call_subscriptions-due 3 three listed listed-Chain listed-Divides (omega arith)

subscribe-Chain_example :
    (s' : Scheduler) × (subscribe 3 three 3 ≡ some s')
    × Chain s'.store s'.subscriptions (with_new nodes 3 listed)
subscribe-Chain_example =
    subscribe-Chain 3 three 3 listed listed-Chain three-NotIn listed-Distinct (omega arith)

unsubscribe-Chain_example :
    (s' : Scheduler) × (unsubscribe 4 three 0 ≡ some s')
    × Chain s'.store s'.subscriptions (without 0 listed)
unsubscribe-Chain_example =
    unsubscribe-Chain 4 three 0 listed listed-Chain listed-Distinct (omega arith)
