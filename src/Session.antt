-- ===== src/Session.antt =====
-- The session store (core/security/session/session.go). The values of a session have a type `A` of
-- the program's. Time is an argument of each operation, and so is the identifier that
-- crypton.RandomBytes yields in hexadecimal (`none`: it failed). A session is changed through its
-- pointer in the source; here through its identifier in the store.
pub mod Index
pub mod Operations
pub mod Sweeping
pub mod Limits
pub mod Remaining
pub mod Live
pub mod Lifetimes
pub mod Tests
use framework_kyrux.Prelude.{
  ℕ, ◌+◌, String, Bool, false, List, [], ◌∷◌, ◌++◌, Option, none, some, ltb, leb, length,
  if◌then◌else◌, not, str_eq, Result, ok, err,
}
use framework_kyrux.Prelude.Dict.{Dict, lookup, insert, erase}
use framework_kyrux.Prelude.Ids.{remove_first, keep_ids}

pub record Session {ℓ} (A : Type ℓ) : Type ℓ where
  pub id : String
  pub user_key : String
  pub values : Dict A
  pub expires : ℕ

pub record Store {ℓ} (A : Type ℓ) : Type ℓ where
  pub sessions : Dict (Session A)
  pub by_key : Dict (List String)
  pub ttl : ℕ
  pub max_total : ℕ
  pub max_per_key : ℕ

-- ErrStoreFull, ErrKeyLimitFull, and the error of RandomBytes
pub data SessionError : Type 0 where
  store_full key_limit_full random_failed : SessionError

-- DefaultMaxTotal and DefaultMaxPerKey
abbrev pub default_max_total : ℕ
default_max_total = 10000

abbrev pub default_max_per_key : ℕ
default_max_per_key = 20

module _ {ℓ} {A : Type ℓ} where
  unfoldable pub new_store : ℕ → Store A
  new_store ttl = record {
    sessions = [];
    by_key = [];
    ttl = ttl;
    max_total = default_max_total;
    max_per_key = default_max_per_key;
  }

  unfoldable pub set_limits : ℕ → ℕ → Store A → Store A
  set_limits max_total max_per_key st = record st {
    max_total = max_total;
    max_per_key = max_per_key;
  }

  -- now.After(sess.Expires)
  abbrev pub expired : ℕ → Session A → Bool
  expired now s = ltb s.expires now

  -- s.byKey[key], nil where it is absent
  unfoldable pub ids_of : String → Store A → List String
  ids_of key st = elim (lookup key st.by_key) [ none ↦ [] | some ids ↦ ids ]

  -- An empty list of identifiers is not kept.
  unfoldable pub put_ids : String → List String → Store A → Store A
  put_ids key [] st = record st { by_key = erase key st.by_key }
  put_ids key (i ∷ ids) st = record st { by_key = insert key (i ∷ ids) st.by_key }

  unfoldable pub is_alive : ℕ → Store A → String → Bool
  is_alive now st id = elim (lookup id st.sessions) [ none ↦ false | some s ↦ not (expired now s) ]

  unfoldable pub prune_key_expired : ℕ → String → Store A → Store A
  prune_key_expired now key st = put_ids key (keep_ids (is_alive now st) (ids_of key st)) st

  unfoldable pub remove_from_key : String → String → Store A → Store A
  remove_from_key key id st = put_ids key (remove_first id (ids_of key st)) st

  unfoldable pub list_under : String → String → Store A → Store A
  list_under key id st = record st { by_key = insert key (ids_of key st ++ id ∷ []) st.by_key }

  unfoldable pub add_session :
      String → String → ℕ → Store A → Store A × Result SessionError (Session A)
  add_session id user_key now st =
      let s : Session A = record {
        id = id;
        user_key = user_key;
        values = [];
        expires = now + st.ttl;
      } in
      let stored = record st { sessions = insert id s st.sessions } in
      (if str_eq user_key "" then stored else list_under user_key id stored, ok s)

  -- newSession behind the check of the key's limit; `st` is the store after the pruning.
  unfoldable pub add_for_key :
      String → String → ℕ → Store A → Store A × Result SessionError (Session A)
  add_for_key id user_key now st =
      if leb st.max_per_key (length (ids_of user_key st))
      then (st, err key_limit_full)
      else add_session id user_key now st

  unfoldable pub new_session :
      Option String → String → ℕ → Store A → Store A × Result SessionError (Session A)
  new_session none user_key now st = (st, err random_failed)
  new_session (some id) user_key now st =
      if leb st.max_total (length st.sessions)
      then (st, err store_full)
      else if str_eq user_key ""
      then add_session id user_key now st
      else add_for_key id user_key now (prune_key_expired now user_key st)

  unfoldable pub get : String → ℕ → Store A → Option (Session A)
  get id now st = elim (lookup id st.sessions) [
    | none ↦ none
    | some s ↦ if expired now s then none else some s
  ]

  -- The index is left, and then the store.
  unfoldable pub drop_session : String → Session A → Store A → Store A
  drop_session id s st =
      let unlisted = if str_eq s.user_key "" then st else remove_from_key s.user_key id st in
      record unlisted { sessions = erase id unlisted.sessions }

  unfoldable pub delete : String → Store A → Store A
  delete id st = elim (lookup id st.sessions) [ none ↦ st | some s ↦ drop_session id s st ]

  -- One tick of gc: every expired session is dropped.
  gc_from : ℕ → Dict (Session A) → Store A → Store A
  gc_from now [] st = st
  gc_from now ((id, s) ∷ rest) st =
      gc_from now rest (if expired now s then drop_session id s st else st)

  unfoldable pub gc : ℕ → Store A → Store A
  unfolding gc_from
  gc now st = gc_from now st.sessions st

  -- FromRequest; `cookie` is the value of the session cookie, if there is one.
  unfoldable pub from_request : Option String → ℕ → Store A → Option (Session A)
  from_request none now st = none
  from_request (some id) now st = get id now st

  -- Session.Get, Session.Set and Session.Delete
  unfoldable pub get_value : String → Session A → Option A
  get_value key s = lookup key s.values

  unfoldable pub set_value : String → A → Session A → Session A
  set_value key v s = record s { values = insert key v s.values }

  unfoldable pub delete_value : String → Session A → Session A
  delete_value key s = record s { values = erase key s.values }

  -- A change through the pointer of a session that the store holds.
  unfoldable pub update_session : String → (Session A → Session A) → Store A → Store A
  update_session id f st = elim (lookup id st.sessions) [
    | none ↦ st
    | some s ↦ record st { sessions = insert id (f s) st.sessions }
  ]
