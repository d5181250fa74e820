-- ===== src/Audit/Examples.antt =====
-- Tests of the audit log, and its theorems at a call that carries a password and a bearer token.
use mcp_swagger.Prelude.{
  ◌≡◌, refl, true, none, some, [], ◌∷◌, arith, length, if◌then◌else◌, if_rule, subst,
}
use mcp_swagger.Text.{
  Text, codes, text_eq, is_space, lower_char, to_lower, trim_space, member, has_prefix, contains,
}
use mcp_swagger.Text.Laws.{text_eq_iff}
use mcp_swagger.Dict.{get}
use mcp_swagger.Value.{Value, str, obj, envelope, end, field, clone_any}
use mcp_swagger.Audit.Redaction.{
  JsonApi, redacted, lower_trim, to_lower_set, redact_headers, redact_node, redact_json,
  redact_text_with, redact_string,
}
use mcp_swagger.Audit.Logger.{UrlApi, Entry, new_logger, is_secret_key, sanitize_url, log_call}
use mcp_swagger.Audit.Hidden.{IsMasked, IsHiding, secret_headers-IsMasked, secret_fields_hidden}
use mcp_swagger.Audit.Strings.{AreTextsBelow, IsShrinking, redact_string_unrolls}

-- A decoder of one document, {"password":"p"}, and an encoder of one value.
abbrev document : Text
document = codes "{'password':'p'}"

abbrev login : Value
login = obj (field (codes "password") (str (codes "p")) end)

abbrev json : JsonApi
json = record {
  unmarshal = λ t. if text_eq t document then some login else none;
  marshal = λ v. some (codes "{}");
}

abbrev urls : UrlApi
urls = record { parse = λ t. none; parse_query = λ t. []; encode = λ q. []; print = λ u. [] }

abbrev entry : Entry
entry = record {
  operation_id = codes "login";
  method = codes "POST";
  url = codes "https://api.test/login";
  correlation_id = codes "r1";
  request_headers = (codes "Authorization", codes "Bearer t") ∷ [];
  request_body = obj (field (codes "Password") (str (codes "p")) end);
  response_headers = [];
  response_body =
      envelope (codes "application/json") (codes "json")
        (obj (field (codes "password") (str (codes "p")) end));
  error = [];
}

abbrev logged : Entry
logged = record entry {
  request_headers = (codes "Authorization", redacted) ∷ [];
  request_body = obj (field (codes "Password") (str redacted) end);
}

login_is_recorded :
    log_call urls json (new_logger true (codes " authorization" ∷ []) (codes "PASSWORD" ∷ [])) entry
    ≡ some logged
unfolding log_call new_logger to_lower_set sanitize_url redact_headers redact_json redact_node
    clone_any member text_eq trim_space is_space to_lower lower_char
login_is_recorded = refl

token_is_secret : is_secret_key (codes "access_token") ≡ true
unfolding is_secret_key contains has_prefix trim_space is_space to_lower lower_char
token_is_secret = refl

lower_authorization : lower_trim (codes "Authorization") ≡ codes "authorization"
unfolding trim_space is_space to_lower lower_char
lower_authorization = refl

authorization_named :
    (text_eq (lower_trim (codes "Authorization")) (lower_trim (codes " authorization"))) ≡ true
unfolding text_eq trim_space is_space to_lower lower_char
authorization_named = refl

secret_headers-IsMasked_example :
    IsMasked (get (codes "Authorization") logged.request_headers)
    × IsMasked (get (codes "Authorization") logged.response_headers)
secret_headers-IsMasked_example =
    secret_headers-IsMasked urls json true (codes " authorization" ∷ []) (codes "PASSWORD" ∷ [])
      entry logged (codes "Authorization") login_is_recorded (rw authorization_named refl)
      (rw lower_authorization λ e. ground arith)

secret_fields_hidden_example : IsHiding (to_lower_set (codes "PASSWORD" ∷ [])) logged.request_body
secret_fields_hidden_example =
    secret_fields_hidden urls json true (codes " authorization" ∷ []) (codes "PASSWORD" ∷ []) entry
      logged login_is_recorded (tt, tt)

json-IsShrinking : IsShrinking json
json-IsShrinking t v =
    if_rule (λ o. o ≡ some v → AreTextsBelow (length t) v) (text_eq t document) (some login) none
      (λ same h.
        let e : login ≡ v = cc in
        let long : t ≡ document = (text_eq_iff t document).0 same in
        subst (AreTextsBelow (length t)) e (rw long (omega arith, tt)))
      λ _ h. ground arith

redact_string_unrolls_example :
    redact_string json (codes "password" ∷ []) document
    ≡ redact_text_with json
        (codes "password" ∷ [])
        (redact_string json (codes "password" ∷ []))
        document
redact_string_unrolls_example =
    redact_string_unrolls json (codes "password" ∷ []) document json-IsShrinking
