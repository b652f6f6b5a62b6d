-- ===== src/Buffer/Tests.antt =====
-- Paths at concrete names and numbers.
use mbed_client.Common.{ℕ, ◌≡◌, refl, Bool, true, false, [], ◌∷◌, some, arith}
use mbed_client.Buffer.{empty, append, append_int, last_index}
use mbed_client.Buffer.Paths.{build_path, create_object_instance_path}
use mbed_client.Buffer.Room.{build_path_lem, create_object_instance_path_lem}

abbrev ample : ℕ → Bool
ample n = true

-- 3/0/5/7 of numbers 0 and 7, in the least buffer that is taken.
build_path_lem_example :
    build_path (b'3' ∷ []) 0 (b'5' ∷ []) 7 (empty 16)
    ≡ (true, record { size = 16; chars = b'3' ∷ b'/' ∷ b'0' ∷ b'/' ∷ b'5' ∷ b'/' ∷ b'7' ∷ [] })
unfolding mbed_client.Text.itoa_c mbed_client.Text.reverse mbed_client.Text.reverse_loop
    mbed_client.Text.digits_loop
build_path_lem_example = build_path_lem 16 (b'3' ∷ []) (b'5' ∷ []) 0 7 (omega arith) (omega arith)

create_object_instance_path_lem_example :
    create_object_instance_path ample (b'3' ∷ []) 10000 ≡ some (b'3' ∷ b'/' ∷ [])
create_object_instance_path_lem_example =
    create_object_instance_path_lem ample (b'3' ∷ []) 10000 (λ n. refl) (omega arith) (omega arith)

full_lem : append_int 12345 (empty 5) ≡ (false, empty 5)
unfolding append_int mbed_client.Text.itoa_c mbed_client.Text.reverse mbed_client.Text.reverse_loop
    mbed_client.Text.digits_loop mbed_client.Text.exchange
full_lem = refl

last_index_lem : last_index b'/' (append (b'3' ∷ b'/' ∷ b'0' ∷ []) (empty 8)).1 ≡ some 1
unfolding append last_index
last_index_lem = refl
