-- ===== src/Csrf/Tokens.antt =====
-- A token that a page holds is accepted from the browser that was given the page.
use framework_kyrux.Prelude.{
  ◌≡◌, ◌≢◌, refl, inl, inr, sym, ap, ◌∙◌, String, Option, none, some, arith, str_eq, eq_iff,
  Bool-cases,
}
use framework_kyrux.Prelude.Dict.{lookup}
use framework_kyrux.Web.{Request, value_or_empty}
use framework_kyrux.Csrf.{
  Settings, Body, Context, passed, field_name, form_value, cookie_name, get_or_create, signature,
  submitted_or_header, token_for, middleware,
}
use framework_kyrux.Csrf.Guard.{some_pair, middleware_passes_iff}

-- The cookie a browser sends after an answer: the one that was set, or the one it had.
unfoldable pub kept_cookie : Settings → Request → Option String → String
kept_cookie settings request set = elim set [
  | some raw ↦ raw
  | none ↦ value_or_empty (lookup (cookie_name settings) request.cookies)
]

get_or_create-kept :
    (settings : Settings) (request : Request) (drawn : Option String) (raw : String)
    (set : Option String)
    → drawn ≢ some ""
    → get_or_create settings request drawn ≡ some (raw, set)
    → (kept_cookie settings request set ≡ raw) × (raw ≢ "")
unfolding get_or_create kept_cookie
get_or_create-kept settings request drawn raw set fresh h =
    elim (Bool-cases (str_eq (value_or_empty (lookup (cookie_name settings) request.cookies)) "")) [
      | inl e ↦ new drawn refl (rw (e, get_or_create) at h)
      | inr e ↦
          let kept = rw (e, get_or_create) at h in
          let same : value_or_empty (lookup (cookie_name settings) request.cookies) ≡ raw =
            ground arith in
          let unset : none ≡ set = ground arith in
          (
            rw (sym unset, kept_cookie) same,
            λ empty.
                ground (
                  arith,
                  eq_iff (value_or_empty (lookup (cookie_name settings) request.cookies)) "",
                ),
          )
    ]
  where
    new :
        (o : Option String)
        → drawn ≡ o
        → elim o [ none ↦ none | some token ↦ some_pair token (some token) ] ≡ some_pair raw set
        → (kept_cookie settings request set ≡ raw) × (raw ≢ "")
    new none d k = absurd (ground arith)
    new (some token) d k =
        let same : token ≡ raw = ground arith in
        let is_set : some token ≡ set = ground arith in
        (rw (sym is_set, kept_cookie) same, λ empty. fresh (d ∙ ap some (same ∙ empty)))

get_or_create-cookie :
    (settings : Settings) (request : Request) (drawn : Option String) (raw : String)
    → raw ≢ ""
    → lookup (cookie_name settings) request.cookies ≡ some raw
    → get_or_create settings request drawn ≡ some (raw, none)
unfolding get_or_create
get_or_create-cookie settings request drawn raw real h = elim (Bool-cases (str_eq raw "")) [
  | inl e ↦ absurd (real ((eq_iff raw "").0 e))
  | inr e ↦ rw (h, e) refl
]

module _ (sign : String → String → String) where
  token_for-signed :
      (settings : Settings) (environment raw : String) (ctx : Context) (token : String)
      → token ≢ ""
      → token_for sign settings environment (record { raw = raw; signed = "" }) ≡ some (ctx, token)
      → signature sign settings environment raw ≡ some token
  unfolding token_for
  token_for-signed settings environment raw ctx token real h =
      split (signature sign settings environment raw) refl
    where
      split :
          (o : Option String)
          → signature sign settings environment raw ≡ o
          → signature sign settings environment raw ≡ some token
      split none e = elim (Bool-cases (str_eq raw "")) [
        | inl empty ↦ absurd (ground arith)
        | inr some_raw ↦ absurd (ground arith)
      ]
      split (some signed) e = elim (Bool-cases (str_eq raw "")) [
        | inl empty ↦ absurd (ground arith)
        | inr some_raw ↦ let same : signed ≡ token = ground arith in e ∙ ap some same
      ]

  -- A page that was given to a browser has a token that is accepted from it: let the middleware
  -- pass a first request, and let TokenFor return a token in its context. Then it passes every
  -- later request that carries the cookie which the browser has after the first answer, and that
  -- token in its form, whatever its method and its path. A drawn raw token is taken to be not
  -- empty.
  pub token_for-accepted :
      (settings : Settings) (environment : String) (first later : Request)
      (first_body later_body : Body) (drawn later_drawn : Option String) (raw token : String)
      (set : Option String) (ctx : Context)
      → drawn ≢ some ""
      → token ≢ ""
      → middleware sign settings environment first first_body drawn
        ≡ passed (record { raw = raw; signed = "" }) set
      → token_for sign settings environment (record { raw = raw; signed = "" }) ≡ some (ctx, token)
      → lookup (cookie_name settings) later.cookies ≡ some (kept_cookie settings first set)
      → form_value later later_body field_name ≡ some token
      → middleware sign settings environment later later_body later_drawn
        ≡ passed (record { raw = raw; signed = "" }) none
  unfolding submitted_or_header
  token_for-accepted settings environment first later first_body later_body drawn later_drawn raw
        token set ctx fresh real through issued cookie field =
      let given =
        (middleware_passes_iff sign settings environment first first_body drawn raw set).0
          through in
      let (kept, some_raw) = get_or_create-kept settings first drawn raw set fresh given.0 in
      let signed = token_for-signed settings environment raw ctx token real issued in
      let sent : submitted_or_header later token ≡ token = elim (Bool-cases (str_eq token "")) [
        | inl e ↦ absurd (real ((eq_iff token "").0 e))
        | inr e ↦ rw (e, submitted_or_header) refl
      ] in
      (middleware_passes_iff sign settings environment later later_body later_drawn raw none).1 (
        get_or_create-cookie settings later later_drawn raw some_raw (cookie ∙ ap some kept),
        inr (token, field, (signed ∙ ap some (sym sent), λ empty. real (sym sent ∙ empty))),
      )
