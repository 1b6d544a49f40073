-- ===== src/Uuid/Tests.antt =====
-- An identifier, and the theorem at concrete calls.
use fossilizid.Base.{ℕ, ◌≢◌, ◌≡◌, refl, arith, get_or}
use fossilizid.Uuid.{Sources, make_uuid, key_after, make_uuid-distinct}

abbrev still : ℕ → Sources
still _ = record { time = 258; address = λ _. 0; process = 4; clock = 0; rand = 255 }

low_byte : get_or (make_uuid (still 0) 1).0 0 9 ≡ 2
unfolding make_uuid
low_byte = refl

make_uuid-distinct_example :
    (make_uuid (still 3) (key_after still 3)).0 ≢ (make_uuid (still 200) (key_after still 200)).0
make_uuid-distinct_example = make_uuid-distinct still 3 200 (omega arith) (omega arith)
