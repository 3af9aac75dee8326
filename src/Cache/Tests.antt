-- ===== src/Cache/Tests.antt =====
-- A cache with room for two entries, which evicts its first one.
use framework_kyrux.Prelude.{
  ℕ, ◌+◌, ◌≤◌, ◌≡◌, ◌⊎◌, refl, String, [], ◌∷◌, none, some, arith, ltb, length, if◌then◌else◌,
  dec_text,
}
use framework_kyrux.Prelude.Dict.{Dict, lookup, insert, erase, keep}
use framework_kyrux.Cache.{Entry, Cache, set, get, make_room, evict_locked, sweep, has_key}
use framework_kyrux.Cache.Entries.{IsVictim, set_bounded, get-set}

abbrev first_key : Dict (Entry ℕ) → String
first_key [] = ""
first_key ((k, e) ∷ m) = k

first_key-IsVictim : IsVictim first_key
unfolding lookup
first_key-IsVictim [] some_entry = absurd (some_entry refl)
first_key-IsVictim ((k, e) ∷ m) some_entry = ground arith

abbrev full : Cache ℕ
full = record {
  entries =
      ("a", record { value = 1; expires = 90 }) ∷ ("b", record { value = 2; expires = 90 }) ∷ [];
  max_entries = 2;
}

abbrev key_c : String
key_c = "c"

set_bounded_example :
    (length (set first_key "c" 3 60 10 full).entries ≤ 2)
    × ((set first_key "c" 3 60 10 full).max_entries ≡ 2)
set_bounded_example =
    set_bounded first_key "c" 3 60 10 full first_key-IsVictim (omega arith) (omega arith)

get-set_example :
    (get "c" 50 (set first_key "c" 3 60 10 full) ≡ (if ltb (10 + 60) 50 then none else some 3))
    × ((key_c ≡ "b")
        ⊎ (get "b" 50 (set first_key "c" 3 60 10 full) ≡ get "b" 50 full)
        ⊎ ((get "b" 50 (set first_key "c" 3 60 10 full) ≡ none)
            × (lookup "c" full.entries ≡ none)
            × (full.max_entries ≤ length full.entries)))
unfolding lookup dec_text
get-set_example = get-set first_key "c" "b" 3 60 10 50 full (refl, (refl, tt))

-- The first entry makes room for a third one.
a_evicted : get "a" 50 (set first_key "c" 3 60 10 full) ≡ none
unfolding get set make_room has_key evict_locked sweep keep lookup insert erase dec_text
a_evicted = refl
