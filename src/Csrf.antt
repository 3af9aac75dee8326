-- ===== src/Csrf.antt =====
-- The guard against forged requests (core/security/csrf/csrf.go): the token of a page, its check,
-- and the middleware. The signature (HMAC-SHA256) and the drawing of tokens are parameters; so is
-- what net/http reads of a form.
pub mod Guard
pub mod Tokens
pub mod Tests
use framework_kyrux.Prelude.{
  ℕ, String, Bool, true, false, List, [], ◌∷◌, ◌++◌, Option, none, some, ◌&&◌, ◌||◌, not, str_eq,
  if◌then◌else◌, ◌<>◌,
}
use framework_kyrux.Prelude.Dict.{Dict, lookup}
use framework_kyrux.Web.{Request, header, value_or_empty}
use package.text.Mathlib.Text.{starts_with}

-- A form: the values of each field
abbrev pub Form : Type 0
Form = Dict (List String)

-- The forms that net/http reads of a body under the limit of 20 MB; `none` is a failure.
pub record Body : Type 0 where
  pub read_before : Option Form
  pub multipart : Option Form
  pub urlencoded : Option Form

-- The variables of the package
pub record Settings : Type 0 where
  pub secure_cookie : Bool
  pub secret : String
  pub exempt_prefixes : List String

-- What the middleware and TokenFor keep in the context of a request; "" where nothing is kept.
pub record Context : Type 0 where
  pub raw : String
  pub signed : String

-- What the middleware does: it answers itself, or calls the next handler, with the cookie it set.
pub data Reply : Type 0 where
  answered : ℕ → Reply
  panicked : Reply
  passed : Context → Option String → Reply

abbrev pub base_cookie_name : String
base_cookie_name = "kyrux_csrf"

abbrev pub field_name : String
field_name = "kyrux_csrf_token"

abbrev pub header_name : String
header_name = "X-CSRF-Token"

unfoldable pub cookie_name : Settings → String
cookie_name settings =
    if settings.secure_cookie then "__Host-" <> base_cookie_name else base_cookie_name

unfoldable pub is_unsafe : String → Bool
is_unsafe method =
    str_eq method "POST" || str_eq method "PUT" || str_eq method "PATCH" || str_eq method "DELETE"

-- Exempt
unfoldable pub exempt : String → Settings → Settings
exempt prefix settings = record settings {
  exempt_prefixes = settings.exempt_prefixes ++ prefix ∷ [];
}

unfoldable pub has_exempt_prefix : List String → String → Bool
has_exempt_prefix [] path = false
has_exempt_prefix (p ∷ ps) path = starts_with path p || has_exempt_prefix ps path

unfoldable pub is_exempt : Settings → String → Bool
unfolding has_exempt_prefix
is_exempt settings path = has_exempt_prefix settings.exempt_prefixes path

-- `environment` is the value of SECRET_KEY there, or "". No key is a panic.
unfoldable pub secret_key : Settings → String → Option String
secret_key settings environment =
    if not (str_eq settings.secret "")
    then some settings.secret
    else if not (str_eq environment "")
    then some environment
    else none

-- The first value of a field, "" where there is none.
unfoldable pub first_value : String → Form → String
first_value key form = elim (lookup key form) [ none ↦ "" | some [] ↦ "" | some (v ∷ _) ↦ v ]

unfoldable pub parsed_form : Request → Body → Option Form
unfolding header
parsed_form request body = elim body.read_before [
  | some form ↦ some form
  | none ↦
      if starts_with (header "Content-Type" request) "multipart/form-data"
      then body.multipart
      else body.urlencoded
]

unfoldable pub form_value : Request → Body → String → Option String
unfolding parsed_form first_value
form_value request body key = elim (parsed_form request body) [
  | none ↦ none
  | some form ↦ some (first_value key form)
]

-- The raw token, and the cookie that is set for a new one; `drawn` is what generate returns.
unfoldable pub get_or_create : Settings → Request → Option String → Option (String × Option String)
unfolding cookie_name
get_or_create settings request drawn =
    let raw = value_or_empty (lookup (cookie_name settings) request.cookies) in
    if str_eq raw ""
    then (elim drawn [ none ↦ none | some token ↦ some (token, some token) ])
    else some (raw, none)

-- The header stands in for a field that is absent or empty.
unfoldable pub submitted_or_header : Request → String → String
unfolding header
submitted_or_header request submitted =
    if str_eq submitted "" then header header_name request else submitted

module _ (sign : String → String → String) where
  -- The signature of a raw token, under the key of the settings.
  unfoldable pub signature : Settings → String → String → Option String
  unfolding secret_key
  signature settings environment raw = elim (secret_key settings environment) [
    | none ↦ none
    | some key ↦ some (sign key raw)
  ]

  -- valid: `none` is the panic of secretKey.
  unfoldable pub valid : Settings → String → String → String → Option Bool
  unfolding signature
  valid settings environment raw submitted =
      if str_eq submitted "" then some false else (elim (signature settings environment raw) [
        | none ↦ none
        | some expected ↦ some (str_eq expected submitted)
      ])

  -- TokenFor: the context after it, and the token.
  unfoldable pub token_for : Settings → String → Context → Option (Context × String)
  unfolding signature
  token_for settings environment ctx =
      if not (str_eq ctx.signed "")
      then some (ctx, ctx.signed)
      else if str_eq ctx.raw ""
      then some (ctx, "")
      else (elim (signature settings environment ctx.raw) [
        | none ↦ none
        | some signed ↦ some (record ctx { signed = signed }, signed)
      ])

  -- The check of an unsafe method.
  unfoldable pub check_token : Settings → String → Request → Body → Context → Option String → Reply
  unfolding form_value submitted_or_header valid
  check_token settings environment request body ctx set =
      elim (form_value request body field_name) [
        | none ↦ answered 400
        | some submitted ↦
            elim (valid settings environment ctx.raw (submitted_or_header request submitted)) [
              | none ↦ panicked
              | some false ↦ answered 403
              | some true ↦ passed ctx set
            ]
      ]

  -- Middleware
  unfoldable pub middleware : Settings → String → Request → Body → Option String → Reply
  unfolding get_or_create is_unsafe is_exempt check_token
  middleware settings environment request body drawn = elim (get_or_create settings request drawn) [
    | none ↦ answered 500
    | some (raw, set) ↦
        (let ctx : Context = record { raw = raw; signed = "" } in
          if is_unsafe request.method && not (is_exempt settings request.path)
          then check_token settings environment request body ctx set
          else passed ctx set)
  ]
