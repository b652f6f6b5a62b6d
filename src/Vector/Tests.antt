-- ===== src/Vector/Tests.antt =====
-- The vector at concrete contents.
use mbed_client.Common.{ℕ, ◌≡◌, refl, [], ◌∷◌}
use mbed_client.Vector.{Vector, contents, push_back, erase}

abbrev three : Vector ℕ
three = record { size = 3; capacity = 3; object_template = 5 ∷ 6 ∷ 7 ∷ [] }

push_back_grown :
    push_back 0 8 three
    ≡ record { size = 4; capacity = 7; object_template = 5 ∷ 6 ∷ 7 ∷ 8 ∷ 0 ∷ 0 ∷ 0 ∷ [] }
unfolding push_back
push_back_grown = refl

erase_middle : contents (erase 1 three) ≡ 5 ∷ 7 ∷ []
unfolding erase
erase_middle = refl
