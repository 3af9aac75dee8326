-- ===== src/Csrf/Tests.antt =====
-- Runs of the middleware, and the theorems at these requests.
use framework_kyrux.Prelude.{
  ◌≡◌, ◌≢◌, refl, ap, ◌↔◌, String, true, [], ◌∷◌, Option, none, some, ◌<>◌, arith, dec_text, str_eq,
  eq_iff, false,
}
use framework_kyrux.Prelude.Dict.{lookup}
use framework_kyrux.Web.{Request, header, value_or_empty}
use framework_kyrux.Csrf.{
  Settings, Body, answered, panicked, passed, cookie_name, is_unsafe, is_exempt, has_exempt_prefix,
  secret_key, first_value, parsed_form, form_value, get_or_create, submitted_or_header, signature,
  valid, token_for, check_token, middleware,
}
use framework_kyrux.Csrf.Guard.{MayPass, middleware_passes_iff}
use framework_kyrux.Csrf.Tokens.{kept_cookie, token_for-accepted}

abbrev keyed : String → String → String
keyed key raw = key <> (":" <> raw)

abbrev settings : Settings
settings = record { secure_cookie = true; secret = "k"; exempt_prefixes = "/api/" ∷ [] }

abbrev pub visit : Request
visit = record {
  method = "GET";
  path = "/form/";
  uri = "/form/";
  host = "example.org";
  remote_addr = "10.0.0.1:4000";
  headers = [];
  cookies = [];
}

abbrev no_body : Body
no_body = record { read_before = none; multipart = none; urlencoded = some [] }

abbrev post : Request
post = record visit { method = "POST"; cookies = ("__Host-kyrux_csrf", "raw") ∷ [] }

abbrev filled : String → Body
filled token = record {
  read_before = none;
  multipart = none;
  urlencoded = some (("kyrux_csrf_token", token ∷ []) ∷ []);
}

visit_passes :
    middleware keyed settings "" visit no_body (some "raw")
    ≡ passed (record { raw = "raw"; signed = "" }) (some "raw")
unfolding middleware get_or_create cookie_name is_unsafe lookup dec_text
visit_passes = refl

forged_refused : middleware keyed settings "" post (filled "k:other") none ≡ answered 403
unfolding middleware get_or_create cookie_name is_unsafe is_exempt has_exempt_prefix check_token
    form_value parsed_form first_value submitted_or_header valid signature secret_key header lookup
    dec_text
forged_refused = refl

unread_refused :
    middleware keyed settings ""
      (record post { headers = ("Content-Type", "multipart/form-data") ∷ [] })
      (filled "k:raw")
      none
    ≡ answered 400
unfolding middleware get_or_create cookie_name is_unsafe is_exempt has_exempt_prefix check_token
    form_value parsed_form first_value submitted_or_header valid signature secret_key header lookup
    dec_text
unread_refused = refl

keyless_panics :
    middleware keyed (record settings { secret = "" }) "" post (filled "k:raw") none ≡ panicked
unfolding middleware get_or_create cookie_name is_unsafe is_exempt has_exempt_prefix check_token
    form_value parsed_form first_value submitted_or_header valid signature secret_key header lookup
    dec_text
keyless_panics = refl

issued :
    token_for keyed settings "" (record { raw = "raw"; signed = "" })
    ≡ some (record { raw = "raw"; signed = "k:raw" }, "k:raw")
unfolding token_for signature secret_key
issued = refl

field_sent : form_value post (filled "k:raw") "kyrux_csrf_token" ≡ some "k:raw"
unfolding form_value parsed_form first_value header lookup dec_text
field_sent = refl

cookie_sent : lookup (cookie_name settings) post.cookies ≡ some "raw"
unfolding lookup cookie_name dec_text
cookie_sent = refl

middleware_passes_iff_example :
    (middleware keyed settings "" post (filled "k:raw") none
      ≡ passed (record { raw = "raw"; signed = "" }) none)
    ↔ ((get_or_create settings post none ≡ some ("raw", none))
        × MayPass keyed settings "" post (filled "k:raw") "raw")
middleware_passes_iff_example =
    middleware_passes_iff keyed settings "" post (filled "k:raw") none "raw" none

text_real : (s : String) → str_eq s "" ≡ false → s ≢ ""
text_real s e h = let same = (eq_iff s "").1 h in ground arith

abbrev drawn_one : Option String
drawn_one = some "raw"

abbrev raw_one : String
raw_one = "raw"

abbrev token_one : String
token_one = "k:raw"

token_for-accepted_example :
    middleware keyed settings "" post (filled "k:raw") none
    ≡ passed (record { raw = "raw"; signed = "" }) none
unfolding kept_cookie
token_for-accepted_example =
    token_for-accepted keyed settings "" visit post no_body (filled "k:raw") (some "raw") none "raw"
      "k:raw" (some "raw") (record { raw = "raw"; signed = "k:raw" }) drawn_real
      (text_real token_one refl) visit_passes issued cookie_sent field_sent
  where
    drawn_real : drawn_one ≢ some ""
    drawn_real h = text_real raw_one refl (ap value_or_empty h)
