-- ===== src/HashMap/Tests.antt =====
-- Runs of the map, and the theorems at concrete tables.
use fossilizid.Base.{
  arith, ℕ, ◌+◌, ◌%◌, ◌<◌, ◌≡◌, ◌↔◌, ◌*◌, refl, none, some, [], ◌∷◌, Eq, ◌==◌, ==_iff,
}
use fossilizid.HashMap.{mask, Table, create, insert, search, u32}
use fossilizid.HashMap.Each.{for_buckets, destroy}
use fossilizid.HashMap.History.{run, answers, run-answers, inserts, searches, erases}
use fossilizid.HashMap.Hash.{
  hash_string, hash_uint32, hash_uint64, hash_int64, hash_int32, negsuc, pos, hash_range,
  hash_string-polynomial,
}

instance abbrev nat_eq : Eq ℕ
nat_eq = record { beq = λ a b. a == b; beq_iff = ==_iff }

abbrev hash : ℕ → ℕ
hash = hash_uint64 1023

abbrev empty_map : Table ℕ ℕ
empty_map = create 0

-- Two keys of one bucket.
abbrev two : Table ℕ ℕ
two = insert hash 1025 8 (insert hash 2 7 empty_map)

search-two :
    (search hash 2 two ≡ some 7) × (search hash 1025 two ≡ some 8) × (search hash 3 two ≡ none)
unfolding search insert hash_uint64
search-two = (refl, refl, refl)

-- The index of -1: out of range at 64 bits, in range at 32 bits.
negative_out_of_range :
    (hash_int64 1023 (negsuc 0) ≡ 4294967295) × (hash_int32 1023 4294967295 ≡ 722)
unfolding hash_int64 hash_int32
negative_out_of_range = (refl, refl)

hash_range_example :
    (hash_string 1023 (97 ∷ []) < 1023)
    × (hash_uint32 1023 7 < 1023)
    × (hash_uint64 1023 7 < 1023)
    × (hash_int64 1023 (pos 7) < 1023)
    × ((hash_int64 1023 (negsuc 7) < 1023) ↔ (8 % 1023 ≡ 0))
hash_range_example = hash_range (97 ∷ []) 7

hash_string-polynomial_example :
    hash_string 1023 (97 ∷ 98 ∷ []) ≡ u32 (34 * (34 * 5831 + 97) + 98) % 1023
hash_string-polynomial_example = hash_string-polynomial 1023 (97 ∷ 98 ∷ [])

-- Three buckets, of which one has its map: the destructor gives back that one.
destroys : destroy 3 (insert hash 2 7 empty_map) ≡ 2 ∷ []
unfolding destroy insert hash_uint64
destroys = refl

calls_two : for_buckets (λ l. l) (λ v n. v + n) 3 two 0 ≡ 15
unfolding for_buckets insert hash_uint64
calls_two = refl

three_new : search hash 3 two ≡ none
unfolding search insert hash_uint64
three_new = refl

three_bucket : hash 3 < mask
unfolding hash_uint64
three_bucket = omega arith

hash_below : (k : ℕ) → hash k < 1023
unfolding hash_uint64
hash_below k = omega arith

run-answers_example :
    run hash (erases 2 ∷ searches 2 ∷ inserts 2 6 ∷ searches 2 ∷ []) two
    ≡ answers (erases 2 ∷ searches 2 ∷ inserts 2 6 ∷ searches 2 ∷ []) (λ k. search hash k two)
run-answers_example =
    run-answers hash (erases 2 ∷ searches 2 ∷ inserts 2 6 ∷ searches 2 ∷ []) two hash_below
