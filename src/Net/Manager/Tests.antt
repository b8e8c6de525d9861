-- ===== src/Net/Manager/Tests.antt =====
-- Runs of the address table, and the theorems about it at concrete tables.
use dread.Base.{ℕ, ◌≡◌, ◌≢◌, refl, ◌↔◌, arith, ◌==◌, ◌&&◌, ◌||◌, get_or, true, false}
use dread.Net.Manager.{
  NetManager, new, contains, add_address, probe_from, get_address, get_free_address,
}
use dread.Net.Manager.Validity.{IsValid, new-IsValid, add_address-IsValid}
use dread.Net.Manager.Registry.{Holds, add_address_accepts_iff, contains-add_address}

-- 46 and 30 share the first slot that they probe.
abbrev one_slave : NetManager
one_slave = (add_address new 46).0

abbrev two_slaves : NetManager
two_slaves = (add_address one_slave 30).0

two_slaves_slots :
    (get_or two_slaves.table 14 0 ≡ 46)
    × (get_or two_slaves.table 15 0 ≡ 30)
    × (contains two_slaves 62 ≡ false)
unfolding add_address new probe_from contains
two_slaves_slots = (refl, refl, refl)

-- The master offers an address that is in use, and the cursor stays where it was.
offers_used :
    (get_free_address two_slaves ≡ 46) × (get_free_address new ≡ 255) × (get_address two_slaves ≡ 0)
unfolding get_free_address get_address add_address new probe_from
offers_used = (refl, refl, refl)

one_slave-IsValid : IsValid one_slave
one_slave-IsValid = add_address-IsValid new 46 new-IsValid

add_address_accepts_iff_example :
    ((add_address one_slave 30).1 ≡ true)
    ↔ ((one_slave.free_addresses ≢ 0) × (◌≢◌ {A = ℕ} 30 0) × (¬ Holds one_slave 30))
add_address_accepts_iff_example = add_address_accepts_iff one_slave 30 one_slave-IsValid

contains-add_address_example :
    contains (add_address one_slave 30).0 46
    ≡ ((add_address one_slave 30).1 && (30 == 46)) || contains one_slave 46
contains-add_address_example = contains-add_address one_slave 30 46 one_slave-IsValid (omega arith)
