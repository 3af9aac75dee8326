-- ===== src/Captcha/Tests.antt =====
-- A captcha that is answered, and the theorem at it.
use framework_kyrux.Prelude.{
  ℕ, ◌≡◌, ◌≢◌, str_eq, eq_iff, refl, String, true, false, [], ◌∷◌, none, some, arith, dec_text,
  is_space,
}
use framework_kyrux.Prelude.Dict.{lookup, insert}
use framework_kyrux.Prelude.Texts.{trim, trim_start, trim_end}
use framework_kyrux.Session.{
  Session, Store, get, from_request, get_value, set_value, update_session, new_session,
}
use framework_kyrux.Captcha.{code_of, set_code, is_answer, verify_read, verify_end, verify}
use framework_kyrux.Captcha.Spent.{Passes, here, waited, created}
use framework_kyrux.Captcha.Uses.{coded, verify_once, verify_twice}

abbrev same : String → String
same s = s

abbrev visitor : Session String
visitor = record { id = "v"; user_key = ""; values = []; expires = 100 }

abbrev empty_store : Store String
empty_store = record { sessions = []; by_key = []; ttl = 60; max_total = 10; max_per_key = 5 }

abbrev store : Store String
store = record empty_store { sessions = ("v", visitor) ∷ [] }

abbrev asked : Store String
asked = record empty_store {
  sessions = ("v", record visitor { values = ("kyrux_captcha_code", "123") ∷ [] }) ∷ [];
}

code_asked : set_code same (some "v") none 5 "123" store ≡ (asked, none)
unfolding set_code from_request get update_session set_value lookup insert dec_text
code_asked = refl

answered : (verify same (some "v") 6 " 123 " asked).1 ≡ true
unfolding verify verify_read verify_end is_answer from_request get get_value lookup dec_text trim
    trim_start trim_end is_space
answered = refl

digits : code_of (7 ∷ 25 ∷ []) ≡ b'7' ∷ b'5' ∷ []
unfolding code_of
digits = refl

-- The visitor asks again after another one has come.
abbrev after : Store String
after = (new_session (some "w") "" 7 (verify same (some "v") 6 "123" asked).0).0

passed : Passes "v" 6 (verify same (some "v") 6 "123" asked).0 7 after
passed = created "w" "" other_visitor (waited 1 here)
  where
    w : String
    w = "w"

    other_visitor : w ≢ "v"
    other_visitor e = let same_text : str_eq w "v" ≡ true = (eq_iff w "v").1 e in ground arith

verify_once_example :
    ((verify same (some "v") 6 "123" asked).1
      ≡ (elim (coded "v" 6 asked) [ none ↦ false | some v ↦ is_answer same "123" v ]))
    × ((verify same (some "v") 7 "123" after).1 ≡ false)
verify_once_example = verify_once same "v" "123" "123" 6 7 asked after passed

code_waits : (now : ℕ) → now ≡ 6 → coded "v" now asked ≡ some "123"
unfolding coded get get_value lookup dec_text
code_waits now e = rw e refl

is_right : is_answer same "123" "123" ≡ true
unfolding is_answer trim trim_start trim_end is_space
is_right = refl

verify_twice_example :
    (r t : String × String) × (verify_read (some "v") 6 asked ≡ some r)
    × (verify_read (some "v") 6 asked ≡ some t)
    × ((verify_end same "123" r asked).1 ≡ true)
    × ((verify_end same "123" t (verify_end same "123" r asked).0).1 ≡ true)
    × (verify_read (some "v") 6 (verify_end same "123" r asked).0 ≡ none)
verify_twice_example =
    verify_twice same "v" "123" "123" 6 6 asked "123" (omega arith) (code_waits 6 refl)
      (code_waits 6 refl) is_right is_right
