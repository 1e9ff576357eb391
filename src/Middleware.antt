-- ===== src/Middleware.antt =====
-- api/http/middleware: handlers around handlers.
pub mod Access
pub mod Gzip
use clean_architect.Domain.{UserRole, Time}
use clean_architect.Errs.{GoError, message}
use clean_architect.Http.{Chunk, Response, Handler, http_error}
use clean_architect.Service.Credentials.{Claims, Manager}
use clean_architect.Common.{
  ◌⊎◌, inl, inr, Bool, true, false, Option, none, some, List, [], ◌∷◌, if◌then◌else◌, ◌==◌, nat_eq,
  Text, txt, text_eq,
}

-- The loop over the roles: every role is compared, and any match sets the flag.
unfoldable pub has_role : Text → List UserRole → Bool → Bool
has_role user_role [] found = found
has_role user_role (role ∷ roles) found =
    has_role user_role roles (if user_role == role then true else found)

module _ {R V W : Type 0} (extract_token : R → GoError ⊎ Text) where
  abbrev checked : Handler R V W → List UserRole → GoError ⊎ Claims → Handler R V W
  checked next roles (inl err) r w s = (http_error (message err) 400 w, s)
  checked next roles (inr claims) r w s =
      if has_role claims.user_role roles false
      then next r w s
      else (http_error (txt "Forbidden") 403 w, s)

  -- MustHaveAtLeastOneRole. The bearer extractor of golang-jwt is a parameter; `now` is the time at
  -- which the token is verified.
  unfoldable pub must_have_at_least_one_role :
      Manager → Time → List UserRole → Handler R V W → Handler R V W
  unfolding has_role http_error message
  must_have_at_least_one_role manager now roles next r w s = elim (extract_token r) [
    | inl err ↦ (http_error (message err) 401 w, s)
    | inr token ↦ checked next roles (manager.verify_token now token) r w s
  ]

-- MeterResponseTime: `log` is the line with the time that has passed.
unfoldable pub meter_response_time : {R V W : Type 0} → (W → W) → Handler R V W → Handler R V W
meter_response_time log next r w s = let (w', s') = next r w s in (w', log s')

-- LogRequestBody: io.ReadAll answers an error or the bytes; `is_eof` is errors.Is(err, io.EOF) and
-- `unmarshal` is the error of json.Unmarshal. `set_body` puts the bytes back into the request. The
-- lines that are logged are kept in the order in which they are written.
module _ {R V W L : Type 0} (read_all : R → GoError ⊎ Text) (is_eof : GoError → Bool)
    (unmarshal : Text → GoError ⊎ L) (log_line : Option L → W → W) (set_body : Text → R → R) where
  abbrev logged : Handler R V W → GoError ⊎ L → Text → Handler R V W
  logged next (inl err) b r w s =
      next (set_body b r) (http_error (message err) 400 w) (log_line none s)
  logged next (inr rb) b r w s = next (set_body b r) w (log_line (some rb) s)

  unfoldable pub log_request_body : Handler R V W → Handler R V W
  unfolding http_error message
  log_request_body next r w s = elim (read_all r) [
    | inl err ↦
        if is_eof err
        then (http_error (txt "request body is empty") 400 w, s)
        else (http_error (txt "Internal Server Error") 500 w, s)
    | inr b ↦ logged next (unmarshal b) b r w s
  ]
