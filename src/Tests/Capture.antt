-- ===== src/Tests/Capture.antt =====
-- Four bytes in two chunks, with a limit of three.
use go_load_balance.Prelude.{◌≡◌, refl, true, [], ◌∷◌, ltb, length, take}
use go_load_balance.Capture.Prefix.{write_all, joined, empty_buffer, write_all-kept}
use go_load_balance.Capture.{write, limit_of}

write_test :
    write_all ((5 ∷ 6 ∷ []) ∷ (7 ∷ 8 ∷ []) ∷ []) (empty_buffer 3)
    ≡ record { buf = 5 ∷ 6 ∷ 7 ∷ []; truncated = true; limit = 3 }
unfolding write
write_test = refl

write_all-kept_example :
    ((write_all ((5 ∷ 6 ∷ []) ∷ (7 ∷ 8 ∷ []) ∷ []) (empty_buffer 3)).buf
      ≡ take (limit_of (empty_buffer 3)) (joined ((5 ∷ 6 ∷ []) ∷ (7 ∷ 8 ∷ []) ∷ [])))
    × ((write_all ((5 ∷ 6 ∷ []) ∷ (7 ∷ 8 ∷ []) ∷ []) (empty_buffer 3)).truncated
        ≡ ltb (limit_of (empty_buffer 3)) (length (joined ((5 ∷ 6 ∷ []) ∷ (7 ∷ 8 ∷ []) ∷ []))))
write_all-kept_example = write_all-kept ((5 ∷ 6 ∷ []) ∷ (7 ∷ 8 ∷ []) ∷ []) 3
