-- ===== src/Session/Sweeping.antt =====
-- The background sweep of the session store (gc in core/security/session/session.go).
use framework_kyrux.Prelude.{
  ℕ, ◌≡◌, refl, inl, inr, String, [], ◌∷◌, Option, none, some, arith, if◌then◌else◌, Bool-cases,
  Option-cases,
}
use framework_kyrux.Prelude.Dict.{Dict, lookup, HasDistinctKeys, lookup-erase}
use framework_kyrux.Session.{Session, Store, expired, drop_session, gc_from, gc, get}
use framework_kyrux.Session.Index.{IsIndexed}
use framework_kyrux.Session.Operations.{sessions-drop_session, drop_session-IsIndexed}

module _ {ℓ} {A : Type ℓ} where
  -- The sessions still to be visited are those of the store.
  abbrev AreStored : Dict (Session A) → Store A → Type ℓ
  AreStored rest st =
      (j : String) (t : Session A) → lookup j rest ≡ some t → lookup j st.sessions ≡ some t

  stored_later :
      (id : String) (s : Session A) (rest : Dict (Session A)) (st : Store A)
      → lookup id rest ≡ none
      → AreStored ((id, s) ∷ rest) st
      → AreStored rest st
  unfolding lookup
  stored_later id s rest st fresh h j t at = h j t (ground arith)

  stored_after_drop :
      (id : String) (s : Session A) (rest : Dict (Session A)) (st : Store A)
      → lookup id rest ≡ none
      → AreStored rest st
      → AreStored rest (drop_session id s st)
  stored_after_drop id s rest st fresh h j t at =
      rw (sessions-drop_session id s st) (ground (arith, lookup-erase id j st.sessions, h j t at))

  stored_first :
      (id : String) (s : Session A) (rest : Dict (Session A)) (st : Store A)
      → AreStored ((id, s) ∷ rest) st
      → lookup id st.sessions ≡ some s
  unfolding lookup
  stored_first id s rest st h = h id s (ground arith)

  -- What a sweep from `rest` leaves under an identifier.
  abbrev swept : ℕ → Option (Session A) → Option (Session A) → Option (Session A)
  swept now none old = old
  swept now (some s) old = if expired now s then none else old

  gc_from-IsIndexed :
      (now : ℕ) (rest : Dict (Session A)) (st : Store A)
      → HasDistinctKeys rest
      → AreStored rest st
      → IsIndexed now st
      → IsIndexed now (gc_from now rest st)
  unfolding gc_from
  gc_from-IsIndexed now [] st d h v = v
  gc_from-IsIndexed now ((id, s) ∷ rest) st d h v = elim (Bool-cases (expired now s)) [
    | inl e ↦ rw e (
        gc_from-IsIndexed now rest (drop_session id s st) d.1
          (stored_after_drop id s rest st d.0 (stored_later id s rest st d.0 h))
          (drop_session-IsIndexed now id s st v (stored_first id s rest st h)))
    | inr e ↦ rw e (gc_from-IsIndexed now rest st d.1 (stored_later id s rest st d.0 h) v)
  ]

  sessions-gc_from :
      (now : ℕ) (rest : Dict (Session A)) (st : Store A) (j : String)
      → HasDistinctKeys rest
      → lookup j (gc_from now rest st).sessions ≡ swept now (lookup j rest) (lookup j st.sessions)
  unfolding gc_from lookup
  sessions-gc_from now [] st j d = refl
  sessions-gc_from now ((id, s) ∷ rest) st j d = elim (Bool-cases (expired now s)) [
    | inl e ↦ ground (
      arith,
      sessions-gc_from now rest (drop_session id s st) j d.1,
      sessions-drop_session id s st,
      lookup-erase id j st.sessions,
      d.0,
    )
    | inr e ↦ ground (arith, sessions-gc_from now rest st j d.1)
  ]

  pub gc-IsIndexed : (now : ℕ) (st : Store A) → IsIndexed now st → IsIndexed now (gc now st)
  unfolding gc
  gc-IsIndexed now st v = gc_from-IsIndexed now st.sessions st v.distinct (λ j t h. h) v

  -- After a sweep of a store whose index agrees with it, an identifier has a session exactly where
  -- `get` found one before: an expired session is gone, and any other is as it was.
  pub lookup-gc :
      (now : ℕ) (st : Store A) (id : String)
      → IsIndexed now st
      → lookup id (gc now st).sessions ≡ get id now st
  unfolding gc get
  lookup-gc now st id v = elim (Option-cases (lookup id st.sessions)) [
    | inl e ↦ ground (arith, sessions-gc_from now st.sessions st id v.distinct)
    | inr (s, e) ↦ ground (arith, sessions-gc_from now st.sessions st id v.distinct)
  ]
