-- ===== src/Router/Serving/Registration.antt =====
-- What is registered in the mux: every pattern once.
use framework_kyrux.Prelude.{
  ◌≡◌, refl, sym, ap, ◌∙◌, inl, inr, String, Bool, false, List, [], ◌∷◌, ◌++◌, arith, ◌||◌, str_eq,
  eq_iff, Bool-cases,
}
use framework_kyrux.Router.Params.{convert_pattern, normalize, slash_alternate, extract_param_names}
use framework_kyrux.Router.Serving.{
  is_member, MuxEntry, Router, new_router, use_middleware, chain_with, register_mux, handle,
  handle_internal,
}

str_eq-sym : (s t : String) → str_eq s t ≡ false → str_eq t s ≡ false
str_eq-sym s t h = ground (arith, eq_iff s t, eq_iff t s)

module _ {ℓ} {H : Type ℓ} where
  -- The mux has a pattern.
  unfoldable pub has_pattern : String → List (MuxEntry H) → Bool
  has_pattern k [] = false
  has_pattern k (e ∷ es) = str_eq e.pattern k || has_pattern k es

  -- No pattern stands twice.
  abbrev pub IsDistinct : List (MuxEntry H) → Type 0
  IsDistinct [] = Unit
  IsDistinct (e ∷ es) = (has_pattern e.pattern es ≡ false) × IsDistinct es

  has_pattern-append :
      (k : String) (es : List (MuxEntry H)) (e : MuxEntry H)
      → has_pattern k (es ++ e ∷ []) ≡ (str_eq e.pattern k || has_pattern k es)
  unfolding has_pattern
  has_pattern-append k [] e = refl
  has_pattern-append k (x ∷ es) e = ground (arith, has_pattern-append k es e)

  append-IsDistinct :
      (es : List (MuxEntry H)) (e : MuxEntry H)
      → IsDistinct es
      → has_pattern e.pattern es ≡ false
      → IsDistinct (es ++ e ∷ [])
  unfolding has_pattern
  append-IsDistinct [] e h n = (refl, tt)
  append-IsDistinct (x ∷ es) e h n = elim (Bool-cases (str_eq x.pattern e.pattern)) [
    | inl same ↦ absurd (ground arith)
    | inr other ↦
        let absent : has_pattern e.pattern es ≡ false = ground arith in
        (
          has_pattern-append x.pattern es e ∙ rw (str_eq-sym x.pattern e.pattern other, h.0) refl,
          append-IsDistinct es e h.1 absent,
        )
  ]

  -- The patterns that the router has noted are those of the mux, and the mux has each once.
  pub record IsRegistered (r : Router H) : Type ℓ where
    pub noted : (k : String) → is_member k r.registered ≡ has_pattern k r.mux
    pub distinct : IsDistinct r.mux

  register_mux-IsRegistered :
      (e : MuxEntry H) (r : Router H) → IsRegistered r → IsRegistered (register_mux e r)
  unfolding register_mux is_member
  register_mux-IsRegistered e r h = elim (Bool-cases (is_member e.pattern r.registered)) [
    | inl m ↦ rw (m, register_mux) h
    | inr m ↦
        rw (m, register_mux)
          (record {
            noted = λ k.
                ap (λ b. str_eq e.pattern k || b) (h.noted k) ∙ sym (has_pattern-append k r.mux e);
            distinct = append-IsDistinct r.mux e h.distinct (sym (h.noted e.pattern) ∙ m);
          })
  ]

  handle-IsRegistered :
      (pattern : String) (h : H) (r : Router H) → IsRegistered r → IsRegistered (handle pattern h r)
  unfolding handle
  handle-IsRegistered pattern h r reg =
      let compiled = normalize (convert_pattern pattern) in
      let entry : MuxEntry H = record {
        pattern = compiled;
        chained = chain_with r.middlewares h;
        param_names = extract_param_names compiled;
      } in
      let noted : IsRegistered (record r { routes = compiled ∷ r.routes }) = record {
        noted = reg.noted;
        distinct = reg.distinct;
      } in
      let first =
        register_mux-IsRegistered entry (record r { routes = compiled ∷ r.routes }) noted in
      let second =
        register_mux-IsRegistered (record entry { pattern = slash_alternate compiled }) _ first in
      elim (Bool-cases (str_eq (slash_alternate (normalize (convert_pattern pattern))) "")) [
        | inl e ↦ rw (e, handle) first
        | inr e ↦ rw (e, handle) second
      ]

-- A call that registers
pub data Call {ℓ} (H : Type ℓ) : Type ℓ where
  uses : (H → H) → Call H
  handles handles_internal : String → H → Call H

module _ {ℓ} {H : Type ℓ} where
  unfoldable pub call : Call H → Router H → Router H
  call (uses m) r = use_middleware m r
  call (handles pattern h) r = handle pattern h r
  call (handles_internal pattern h) r = handle_internal pattern h r

  unfoldable pub call_all : List (Call H) → Router H → Router H
  unfolding call
  call_all [] r = r
  call_all (c ∷ cs) r = call_all cs (call c r)

  call-IsRegistered : (c : Call H) (r : Router H) → IsRegistered r → IsRegistered (call c r)
  unfolding call use_middleware handle_internal
  call-IsRegistered (uses m) r h = record { noted = h.noted; distinct = h.distinct }
  call-IsRegistered (handles pattern v) r h = handle-IsRegistered pattern v r h
  call-IsRegistered (handles_internal pattern v) r h =
      handle-IsRegistered pattern v _ (record { noted = h.noted; distinct = h.distinct })

  call_all-IsRegistered :
      (cs : List (Call H)) (r : Router H) → IsRegistered r → IsRegistered (call_all cs r)
  unfolding call_all
  call_all-IsRegistered [] r h = h
  call_all-IsRegistered (c ∷ cs) r h = call_all-IsRegistered cs (call c r) (call-IsRegistered c r h)

  -- After any calls of Use, Handle and Internal on a new router, the mux, which panics on a pattern
  -- that it has, was given every pattern once, also where routes were repeated or given with and
  -- without their last slash, and has exactly the patterns that the router noted.
  pub new_router-IsRegistered : (cs : List (Call H)) → IsRegistered (call_all cs new_router)
  unfolding new_router is_member has_pattern
  new_router-IsRegistered cs =
      call_all-IsRegistered cs new_router (record { noted = λ k. refl; distinct = tt })
