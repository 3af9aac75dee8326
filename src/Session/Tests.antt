-- ===== src/Session/Tests.antt =====
-- Runs of the session store, and the theorems at a store that some requests have reached.
use framework_kyrux.Prelude.{
  true, ℕ, ◌≤◌, ◌≡◌, refl, ◌≢◌, String, none, some, arith, str_eq, eq_iff, length, dec_text, err,
}
use framework_kyrux.Prelude.Dict.{lookup, insert, erase}
use framework_kyrux.Prelude.Ids.{keep_ids}
use framework_kyrux.Session.{
  Store, key_limit_full, new_store, set_limits, new_session, add_session, add_for_key,
  prune_key_expired, put_ids, ids_of, list_under, get, gc, is_alive,
}
use framework_kyrux.Session.Index.{IsIndexed}
use framework_kyrux.Session.Sweeping.{lookup-gc}
use framework_kyrux.Session.Live.{live_ids}
use framework_kyrux.Session.Lifetimes.{
  Reached, LimitsWithin, limits_set, made, waited, created, reached-IsIndexed, reached_bounded,
}

abbrev empty_store : Store ℕ
empty_store = set_limits 100 1 (new_store 60)

abbrev one_session : Store ℕ
one_session = (new_session (some "s1") "42" 5 empty_store).0

-- Time passes until the session has expired.
one_session_reached : Reached 105 one_session
unfolding set_limits new_store lookup
one_session_reached = waited 100 (created "s1" "42" refl (limits_set 100 1 (made 5 60)))

reached-IsIndexed_example : IsIndexed 105 one_session
reached-IsIndexed_example = reached-IsIndexed one_session_reached

abbrev key_42 : String
key_42 = "42"

named_42 : key_42 ≢ ""
named_42 e = let same : str_eq key_42 "" ≡ true = (eq_iff key_42 "").1 e in ground arith

-- The limits are lowered under a session that is there.
abbrev lowered : Store ℕ
lowered = set_limits 0 0 one_session

lowered_reached : Reached 105 lowered
lowered_reached = limits_set 0 0 one_session_reached

lowered_within : LimitsWithin 10000 20 lowered_reached
unfolding lowered_reached one_session_reached new_store
lowered_within = (omega arith, omega arith, (omega arith, omega arith, (omega arith, omega arith)))

reached_bounded_example :
    (length lowered.sessions ≤ 10000) × (length (live_ids 105 "42" lowered.sessions) ≤ 20)
reached_bounded_example =
    reached_bounded 10000 20 105 lowered "42" lowered_reached lowered_within named_42

lookup-gc_example : lookup "s1" (gc 105 one_session).sessions ≡ get "s1" 105 one_session
lookup-gc_example = lookup-gc 105 one_session "s1" (reached-IsIndexed one_session_reached)

expired_session : get "s1" 105 one_session ≡ none
unfolding get lookup new_session set_limits new_store add_for_key prune_key_expired put_ids keep_ids
    ids_of erase add_session list_under insert dec_text
expired_session = refl

-- A second session of the key is refused while the first one lives.
second_refused : (new_session (some "s2") "42" 20 one_session).1 ≡ err key_limit_full
unfolding new_session set_limits new_store add_for_key prune_key_expired put_ids keep_ids ids_of
    lookup erase add_session list_under insert dec_text is_alive
second_refused = refl
