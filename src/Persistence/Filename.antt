-- ===== src/Persistence/Filename.antt =====
-- Support/FilePersistence/FilePersistence.cpp: the name of the record file, which `generateNextUID` counts
-- up in its bytes 3 to 7.
pub mod Counting
mod Tests
use dread.Base.{ℕ, zero, suc, ◌+◌, List, ◌==◌, u8, if◌then◌else◌, get_or, set}

-- The three cases of the `switch`.
unfoldable pub next_char : ℕ → ℕ
next_char c = if c == b'Z' then b'0' else (if c == b'9' then b'A' else u8 (c + 1))

-- The loop with `counter` at `k + 2`. Only 'Z' leaves a '0' behind and goes on; the other cases set
-- `counter` to 2, which ends the loop.
unfoldable pub count_from : ℕ → List ℕ → List ℕ
count_from zero name = name
count_from (suc k) name =
    let name' = set name (k + 3) (next_char (get_or name (k + 3) 0)) in
    let carried = count_from k name' in if get_or name (k + 3) 0 == b'Z' then carried else name'

unfoldable pub generate_next_uid : List ℕ → List ℕ
unfolding count_from
generate_next_uid name = count_from 5 name
