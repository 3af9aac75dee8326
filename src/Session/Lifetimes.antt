-- ===== src/Session/Lifetimes.antt =====
-- The life of a session store (core/security/session/session.go) as a relation on states: it is made,
-- and from there requests, the sweep, new limits and time change it in any order.
use framework_kyrux.Prelude.{ℕ, ◌+◌, ◌≤◌, ◌≡◌, refl, ◌≢◌, String, none, some, arith, length}
use framework_kyrux.Prelude.Dict.{lookup}
use framework_kyrux.Prelude.Ids.{contains}
use framework_kyrux.Session.{
  Store, new_store, set_limits, ids_of, new_session, delete, gc, set_value, delete_value,
  update_session,
}
use framework_kyrux.Session.Index.{IsIndexed, later-IsIndexed}
use framework_kyrux.Session.Operations.{
  delete-IsIndexed, new_session-IsIndexed, update_session-IsIndexed,
}
use framework_kyrux.Session.Sweeping.{gc-IsIndexed}
use framework_kyrux.Session.Limits.{
  IsBounded, delete-IsBounded, gc-IsBounded, new_session-IsBounded, update_session-IsBounded,
}
use framework_kyrux.Session.Live.{live_ids, live_ids-bound}

module _ {ℓ} {A : Type ℓ} where
  -- The states of the store, with the time: an identifier that is made is not in use.
  pub data Reached : ℕ → Store A → Type ℓ where
    made : (now ttl : ℕ) → Reached now (new_store ttl)
    waited : {now : ℕ} {st : Store A} (seconds : ℕ) → Reached now st → Reached (now + seconds) st
    created :
        {now : ℕ} {st : Store A} (id user_key : String)
        → lookup id st.sessions ≡ none
        → Reached now st
        → Reached now (new_session (some id) user_key now st).0
    not_created :
        {now : ℕ} {st : Store A} (user_key : String)
        → Reached now st
        → Reached now (new_session none user_key now st).0
    deleted : {now : ℕ} {st : Store A} (id : String) → Reached now st → Reached now (delete id st)
    swept : {now : ℕ} {st : Store A} → Reached now st → Reached now (gc now st)
    limits_set :
        {now : ℕ} {st : Store A} (max_total max_per_key : ℕ)
        → Reached now st
        → Reached now (set_limits max_total max_per_key st)
    value_set :
        {now : ℕ} {st : Store A} (id key : String) (v : A)
        → Reached now st
        → Reached now (update_session id (set_value key v) st)
    value_deleted :
        {now : ℕ} {st : Store A} (id key : String)
        → Reached now st
        → Reached now (update_session id (delete_value key) st)

  made-IsIndexed : (now ttl : ℕ) → IsIndexed {A = A} now (new_store ttl)
  unfolding new_store ids_of lookup contains
  made-IsIndexed now ttl = record {
    distinct = tt;
    owned = λ key id h. absurd (ground arith);
    listed = λ id s h named alive. absurd (ground arith);
    once = λ key. tt;
    keyless = λ id. refl;
  }

  set_limits-IsIndexed :
      (now max_total max_per_key : ℕ) (st : Store A)
      → IsIndexed now st
      → IsIndexed now (set_limits max_total max_per_key st)
  unfolding set_limits ids_of
  set_limits-IsIndexed now t k st h = record {
    distinct = h.distinct;
    owned = h.owned;
    listed = h.listed;
    once = h.once;
    keyless = h.keyless;
  }

  -- In every state that the store reaches, the index agrees with the sessions: what it lists under
  -- a key are sessions of that key, each once, and all of those that have not expired.
  pub reached-IsIndexed : {now : ℕ} {st : Store A} → Reached now st → IsIndexed now st
  unfolding new_session set_value delete_value
  reached-IsIndexed (made now ttl) = made-IsIndexed now ttl
  reached-IsIndexed (waited seconds r) = later-IsIndexed _ _ _ (omega arith) (reached-IsIndexed r)
  reached-IsIndexed (created id key fresh r) =
      new_session-IsIndexed _ id key _ (reached-IsIndexed r) fresh
  reached-IsIndexed (not_created key r) = reached-IsIndexed r
  reached-IsIndexed (deleted id r) = delete-IsIndexed _ id _ (reached-IsIndexed r)
  reached-IsIndexed (swept r) = gc-IsIndexed _ _ (reached-IsIndexed r)
  reached-IsIndexed (limits_set t k r) = set_limits-IsIndexed _ t k _ (reached-IsIndexed r)
  reached-IsIndexed (value_set id key v r) =
      update_session-IsIndexed _ id _ _ (λ s. (refl, refl)) (reached-IsIndexed r)
  reached-IsIndexed (value_deleted id key r) =
      update_session-IsIndexed _ id _ _ (λ s. (refl, refl)) (reached-IsIndexed r)

  -- The limits that the store had on the way to a state, the ones it is made with included, are at
  -- most `most` sessions in all and `most_key` of one key.
  abbrev pub LimitsWithin : (most most_key : ℕ) {now : ℕ} {st : Store A} → Reached now st → Type 0
  LimitsWithin most most_key (made now ttl) =
      ((new_store {A = A} ttl).max_total ≤ most) × ((new_store {A = A} ttl).max_per_key ≤ most_key)
  LimitsWithin most most_key (limits_set t k r) =
      (t ≤ most) × (k ≤ most_key) × LimitsWithin most most_key r
  LimitsWithin most most_key (waited seconds r) = LimitsWithin most most_key r
  LimitsWithin most most_key (created id key fresh r) = LimitsWithin most most_key r
  LimitsWithin most most_key (not_created key r) = LimitsWithin most most_key r
  LimitsWithin most most_key (deleted id r) = LimitsWithin most most_key r
  LimitsWithin most most_key (swept r) = LimitsWithin most most_key r
  LimitsWithin most most_key (value_set id key v r) = LimitsWithin most most_key r
  LimitsWithin most most_key (value_deleted id key r) = LimitsWithin most most_key r

  made-IsBounded :
      (most most_key ttl : ℕ)
      → (new_store {A = A} ttl).max_total ≤ most
      → (new_store {A = A} ttl).max_per_key ≤ most_key
      → IsBounded most most_key (new_store {A = A} ttl)
  unfolding new_store ids_of lookup
  made-IsBounded most most_key ttl total per_key = record {
    total_limit = total;
    key_limit = per_key;
    total = omega arith;
    per_key = λ key. omega arith;
  }

  set_limits-IsBounded :
      (most most_key t k : ℕ) (st : Store A)
      → t ≤ most
      → k ≤ most_key
      → IsBounded most most_key st
      → IsBounded most most_key (set_limits t k st)
  unfolding set_limits ids_of
  set_limits-IsBounded most most_key t k st total per_key b = record {
    total_limit = total;
    key_limit = per_key;
    total = b.total;
    per_key = b.per_key;
  }

  reached-IsBounded :
      (m n : ℕ) {now : ℕ} {st : Store A} (r : Reached now st)
      → LimitsWithin m n r
      → IsBounded m n st
  unfolding new_session
  reached-IsBounded m n (made now ttl) l = made-IsBounded m n ttl l.0 l.1
  reached-IsBounded m n (limits_set t k r) l =
      set_limits-IsBounded m n t k _ l.0 l.1 (reached-IsBounded m n r l.2)
  reached-IsBounded m n (waited seconds r) l = reached-IsBounded m n r l
  reached-IsBounded m n (created id key fresh r) l =
      new_session-IsBounded m n id key _ _ (reached-IsBounded m n r l)
  reached-IsBounded m n (not_created key r) l = reached-IsBounded m n r l
  reached-IsBounded m n (deleted id r) l = delete-IsBounded m n id _ (reached-IsBounded m n r l)
  reached-IsBounded m n (swept r) l = gc-IsBounded m n _ _ (reached-IsBounded m n r l)
  reached-IsBounded m n (value_set id key v r) l =
      update_session-IsBounded m n id _ _ (reached-IsBounded m n r l)
  reached-IsBounded m n (value_deleted id key r) l =
      update_session-IsBounded m n id _ _ (reached-IsBounded m n r l)

  -- In every state that the store reaches, its limits changed between or not, it holds at most
  -- `most` sessions, and at most `most_key` sessions of one key that have not expired, the key not
  -- being the empty one, if the limits that the store had on the way were at most these.
  pub reached_bounded :
      (most most_key now : ℕ) (st : Store A) (key : String) (r : Reached now st)
      → LimitsWithin most most_key r
      → key ≢ ""
      → (length st.sessions ≤ most) × (length (live_ids now key st.sessions) ≤ most_key)
  reached_bounded most most_key now st key r within named =
      let b = reached-IsBounded most most_key r within in
      (b.total, live_ids-bound most most_key now key st (reached-IsIndexed r) b named)
