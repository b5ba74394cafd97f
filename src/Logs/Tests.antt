-- ===== src/Logs/Tests.antt =====
-- Runs of the rotation and of the tee, and the theorems about them at these.
use toothkey.Base.{ℕ, zero, suc, ◌≡◌, refl, none, some, [], ◌∷◌, All}
use toothkey.Logs.Rotate.{Dir, rotate_if_large, rotate_files, roll_all, roll, clear, call}
use toothkey.Logs.Rotate.Newest.{Keeps, rotate_if_large-Keeps}
use toothkey.Logs.Rotate.Files.{files}
use toothkey.Logs.Tee.{reader, take_lines, push}
use toothkey.Logs.Tee.Whole.{lines_of, stream, Unbroken, reader-stream}

-- a file is its size here
abbrev logs : Dir ℕ
logs zero = some 90
logs (suc zero) = some 81
logs (suc (suc zero)) = none
logs (suc (suc (suc zero))) = some 83
logs (suc (suc (suc (suc n)))) = none

abbrev size : ℕ → ℕ
size n = n

rotated_files : files ℕ 0 5 (rotate_if_large ℕ size 80 3 9 logs).0 ≡ 90 ∷ 81 ∷ []
unfolding rotate_if_large rotate_files roll_all roll clear call
rotated_files = refl

-- The second call fails: nothing but the last file is gone.
failed_files : files ℕ 0 5 (rotate_if_large ℕ size 80 3 1 logs).0 ≡ 90 ∷ 81 ∷ []
unfolding rotate_if_large rotate_files roll_all roll clear call
failed_files = refl

rotate_if_large-Keeps_example : Keeps ℕ 2 logs (rotate_if_large ℕ size 80 3 1 logs)
rotate_if_large-Keeps_example = rotate_if_large-Keeps ℕ size 80 2 1 logs

-- "ab\nc" and "d\ne", with a stamp of 30 bytes
reader-stream_example :
    let (did, left) = reader 30 ((97 ∷ 98 ∷ 10 ∷ 99 ∷ []) ∷ (100 ∷ 10 ∷ 101 ∷ []) ∷ []) [] 0 in
    (stream (lines_of did) left ≡ 97 ∷ 98 ∷ 10 ∷ 99 ∷ 100 ∷ 10 ∷ 101 ∷ [])
    × All Unbroken (lines_of did)
    × Unbroken left
reader-stream_example = reader-stream 30 ((97 ∷ 98 ∷ 10 ∷ 99 ∷ []) ∷ (100 ∷ 10 ∷ 101 ∷ []) ∷ [])

-- What follows the last newline is dropped.
last_line_lost :
    (reader 30 ((97 ∷ 98 ∷ 10 ∷ 99 ∷ []) ∷ (100 ∷ 10 ∷ 101 ∷ []) ∷ []) [] 0).1 ≡ 101 ∷ []
unfolding reader take_lines push
last_line_lost = refl
