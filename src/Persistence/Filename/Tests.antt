-- ===== src/Persistence/Filename/Tests.antt =====
-- Some file names.
use dread.Base.{ℕ, ◌≡◌, refl, List, [], ◌∷◌}
use dread.Persistence.Filename.{next_char, count_from, generate_next_uid}

-- "I1Z0019Z" and the name after it, "I1Z001A0"
abbrev name : List ℕ
name = b'I' ∷ b'1' ∷ b'Z' ∷ b'0' ∷ b'0' ∷ b'1' ∷ b'9' ∷ b'Z' ∷ []

next_name : generate_next_uid name ≡ b'I' ∷ b'1' ∷ b'Z' ∷ b'0' ∷ b'0' ∷ b'1' ∷ b'A' ∷ b'0' ∷ []
unfolding generate_next_uid count_from next_char
next_name = refl
