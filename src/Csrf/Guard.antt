-- ===== src/Csrf/Guard.antt =====
-- Which requests the middleware lets pass.
use framework_kyrux.Prelude.{
  ◌≡◌, ◌≢◌, refl, ◌↔◌, ◌⊎◌, inl, inr, ap, ◌∙◌, String, Bool, true, false, Option, none, some, arith,
  not, ◌&&◌, str_eq, eq_iff, Bool-cases, subst,
}
use framework_kyrux.Web.{Request}
use framework_kyrux.Csrf.{
  Settings, Body, Context, passed, field_name, is_unsafe, is_exempt, form_value, get_or_create,
  signature, valid, submitted_or_header, check_token, middleware,
}

abbrev pub some_pair : String → Option String → Option (String × Option String)
some_pair raw set = some (raw, set)

passed_same :
    (r raw : String) (s set : Option String)
    → passed (record { raw = r; signed = "" }) s ≡ passed (record { raw = raw; signed = "" }) set
    → some_pair r s ≡ some_pair raw set
passed_same r raw s set same = ground arith

module _ (sign : String → String → String) where
  -- A submitted token is valid: it is the signature of the raw token, and not empty.
  abbrev pub IsSigned : Settings → String → String → String → Type 0
  IsSigned settings environment raw submitted =
      (signature sign settings environment raw ≡ some submitted) × (submitted ≢ "")

  pub valid-IsSigned :
      (settings : Settings) (environment raw submitted : String)
      → valid sign settings environment raw submitted ≡ some true
      → IsSigned settings environment raw submitted
  unfolding valid
  valid-IsSigned settings environment raw submitted h =
      split (signature sign settings environment raw) refl
    where
      split :
          (o : Option String)
          → signature sign settings environment raw ≡ o
          → IsSigned settings environment raw submitted
      split none e = absurd (ground arith)
      split (some expected) e = elim (Bool-cases (str_eq expected submitted)) [
        | inl same ↦ (
          e ∙ ap some ((eq_iff expected submitted).0 same),
          λ none_sent. ground (arith, eq_iff submitted ""),
        )
        | inr other ↦ absurd (ground arith)
      ]

  pub IsSigned-valid :
      (settings : Settings) (environment raw submitted : String)
      → IsSigned settings environment raw submitted
      → valid sign settings environment raw submitted ≡ some true
  unfolding valid
  IsSigned-valid settings environment raw submitted h = elim (Bool-cases (str_eq submitted "")) [
    | inl e ↦ absurd (h.1 ((eq_iff submitted "").0 e))
    | inr e ↦ rw (e, h.0, (eq_iff submitted submitted).1 refl) refl
  ]

  -- The form of a request, or the header, holds a valid token.
  abbrev pub HasToken : Settings → String → Request → Body → String → Type 0
  HasToken settings environment request body raw =
      (submitted : String) × (form_value request body field_name ≡ some submitted)
      × IsSigned settings environment raw (submitted_or_header request submitted)

  check_token-HasToken :
      (settings : Settings) (environment : String) (request : Request) (body : Body)
      (ctx ctx' : Context) (set set' : Option String)
      → check_token sign settings environment request body ctx set ≡ passed ctx' set'
      → (passed ctx set ≡ passed ctx' set') × HasToken settings environment request body ctx.raw
  unfolding check_token
  check_token-HasToken settings environment request body ctx ctx' set set' h =
      split (form_value request body field_name) refl
    where
      Holds : Type 0
      Holds =
          (passed ctx set ≡ passed ctx' set') × HasToken settings environment request body ctx.raw

      check :
          (submitted : String)
          → form_value request body field_name ≡ some submitted
          → (o : Option Bool)
          → valid sign settings environment ctx.raw (submitted_or_header request submitted) ≡ o
          → Holds
      check submitted e none v = absurd (ground arith)
      check submitted e (some false) v = absurd (ground arith)
      check submitted e (some true) v = (
        ground arith,
        (
          submitted,
          e,
          valid-IsSigned settings environment ctx.raw (submitted_or_header request submitted) v,
        ),
      )

      split : (o : Option String) → form_value request body field_name ≡ o → Holds
      split none e = absurd (ground arith)
      split (some submitted) e = check submitted e _ refl

  HasToken-check_token :
      (settings : Settings) (environment : String) (request : Request) (body : Body) (ctx : Context)
      (set : Option String)
      → HasToken settings environment request body ctx.raw
      → check_token sign settings environment request body ctx set ≡ passed ctx set
  unfolding check_token
  HasToken-check_token settings environment request body ctx set (submitted, e, signed) =
      let v =
        IsSigned-valid settings environment ctx.raw (submitted_or_header request submitted)
          signed in
      rw (e, v, check_token) refl

  -- What a request needs: none of the guard where its method is safe or its path exempt, and else
  -- a valid token.
  abbrev pub MayPass : Settings → String → Request → Body → String → Type 0
  MayPass settings environment request body raw =
      ((is_unsafe request.method && not (is_exempt settings request.path)) ≡ false)
      ⊎ HasToken settings environment request body raw

  -- The middleware calls the next handler exactly when the request has a raw token, of its cookie
  -- or drawn, and either its method is safe, or its path is exempt, or its form, or else its
  -- header, holds the signature of that raw token. The context and the cookie are then those of
  -- the raw token. In every other case the next handler is not called.
  pub middleware_passes_iff :
      (settings : Settings) (environment : String) (request : Request) (body : Body)
      (drawn : Option String) (raw : String) (set : Option String)
      → (middleware sign settings environment request body drawn
          ≡ passed (record { raw = raw; signed = "" }) set)
        ↔ ((get_or_create settings request drawn ≡ some (raw, set))
            × MayPass settings environment request body raw)
  unfolding middleware
  middleware_passes_iff settings environment request body drawn raw set = (to, from)
    where
      ctx_of : String → Context
      ctx_of r = record { raw = r; signed = "" }

      guard : Bool
      guard = is_unsafe request.method && not (is_exempt settings request.path)

      to :
          middleware sign settings environment request body drawn ≡ passed (ctx_of raw) set
          → (get_or_create settings request drawn ≡ some (raw, set))
            × MayPass settings environment request body raw
      to h = split (get_or_create settings request drawn) refl
        where
          split :
              (o : Option (String × Option String))
              → get_or_create settings request drawn ≡ o
              → (get_or_create settings request drawn ≡ some (raw, set))
                × MayPass settings environment request body raw
          split none e = absurd (ground arith)
          split (some (r, s)) e = elim (Bool-cases guard) [
            | inl g ↦
                let checked = rw (e, g, middleware) at h in
                let (same, token) =
                  check_token-HasToken settings environment request body (ctx_of r) (ctx_of raw) s
                    set checked in
                let same_raw : r ≡ raw = ground arith in
                (
                  e ∙ passed_same r raw s set same,
                  inr (subst (HasToken settings environment request body) same_raw token),
                )
            | inr g ↦
                let same = rw (e, g, middleware) at h in (e ∙ passed_same r raw s set same, inl g)
          ]

      from :
          (get_or_create settings request drawn ≡ some (raw, set))
            × MayPass settings environment request body raw
          → middleware sign settings environment request body drawn ≡ passed (ctx_of raw) set
      from (e, inl free) = rw (e, free, middleware) refl
      from (e, inr token) = elim (Bool-cases guard) [
        | inl g ↦
            rw (e, g, middleware)
              (HasToken-check_token settings environment request body (ctx_of raw) set token)
        | inr g ↦ rw (e, g, middleware) refl
      ]
