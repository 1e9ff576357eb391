-- ===== src/Examples/Web.antt =====
-- The errors, the middleware and the handlers.
use clean_architect.Errs.{
  GoError, sentinel, text_error, http_status, new, user_not_found, code_internal,
}
use clean_architect.Handler.{Body, app_error, Request, Outside, UserRequest}
use clean_architect.Http.{Handler, json, fresh, write_header}
use clean_architect.Jsonutil.{encode_error, valid}
use clean_architect.Jsonutil.Responses.{shown, encode_error-new}
use clean_architect.Middleware.{must_have_at_least_one_role}
use clean_architect.Middleware.Access.{IsDenial, denied_stops}
use clean_architect.Examples.{manager}
use clean_architect.Common.{
  ℕ, ◌+◌, ◌≡◌, refl, ◌⊎◌, inl, inr, Bool, true, none, some, List, [], ◌∷◌, nat_eq, Text, txt,
  text_eq,
}

abbrev all_encode : Body → Bool
all_encode b = true

encode_error-new_example :
    (encode_error all_encode app_error
      (new none (sentinel user_not_found) code_internal [])
      fresh).1
    ≡ record {
      status = some (http_status code_internal);
      content_type = txt "application/json";
      body =
          json (
            app_error
              (shown all_encode app_error none (sentinel user_not_found) code_internal)
              code_internal
              [])
          ∷ [];
    }
encode_error-new_example =
    encode_error-new all_encode app_error none (sentinel user_not_found) code_internal [] refl

-- A request is its token, and the handler counts its calls.
abbrev extract : Text → GoError ⊎ Text
extract [] = inl (text_error (txt "no token"))
extract (c ∷ t) = inr (c ∷ t)

abbrev counting : Handler Text Body ℕ
counting r w n = (write_header 204 w, n + 1)

abbrev roles : List Text
roles = txt "Admin" ∷ txt "User" ∷ []

denied_stops_example :
    ((must_have_at_least_one_role extract manager 5 roles counting [] fresh 0).1 ≡ 0)
    × IsDenial (must_have_at_least_one_role extract manager 5 roles counting [] fresh 0).0.status
denied_stops_example =
    denied_stops extract manager 5 roles counting [] 0 (λ (token, claims, found, verified, m). cc)

abbrev pub outside : Outside
outside = record {
  encodes = all_encode;
  validate_user = λ r. valid;
  validate_register = λ r. valid;
  validate_auth = λ r. valid;
  new_id = 7;
  now = 5;
}

abbrev carol : UserRequest
carol = record {
  name = txt "carol";
  phone_number = [];
  email = txt "c@x.org";
  password = txt "open";
  role = txt "User";
}

abbrev bad_id : GoError
bad_id = text_error (txt "invalid UUID length: 1")

abbrev pub request : Request
request = record {
  queries = [];
  path_id = inl bad_id;
  user_request = inr carol;
  register_request = inl bad_id;
  auth_request = inl bad_id;
}
