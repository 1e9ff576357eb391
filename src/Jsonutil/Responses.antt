-- ===== src/Jsonutil/Responses.antt =====
-- The responses to errors, and the messages about invalid fields.
use clean_architect.Errs.{
  GoError, ErrorCode, Detail, http_status, message, new, not_found_error, code_internal,
  code_not_found,
}
use clean_architect.Http.{json, fresh}
use clean_architect.Jsonutil.{
  encode_error, FieldError, field_message, or_empty, add_field_error, field_errors,
}
use clean_architect.Common.{
  ℕ, ◌≡◌, refl, sym, ◌∙◌, Bool, true, Option, some, List, [], ◌∷◌, ◌++◌, append-nil, append_assoc,
  arith, if◌then◌else◌, ◌==◌, nat_eq, Text, txt, text_beq_iff, text_eq, Dict, lookup, lookup-insert,
}

module _ {V : Type 0} (encodes : V → Bool) (error_body : Text → ℕ → List Detail → V)
    (frame : Option (Text × ℕ)) where
  -- The text of a new error: the cause's own, but not for an internal error.
  abbrev pub shown : GoError → ErrorCode → Text
  shown err code = if code == code_internal then txt "internal error" else message err

  -- An error made by `errs.New` is answered with the HTTP status of its code and a body of its
  -- text, code and details; the text of an internal error says nothing of its cause.
  pub encode_error-new :
      (err : GoError) (code : ErrorCode) (details : List Detail)
      → encodes (error_body (shown err code) code details) ≡ true
      → (encode_error encodes error_body (new frame err code details) fresh).1 ≡ record {
        status = some (http_status code);
        content_type = txt "application/json";
        body = json (error_body (shown err code) code details) ∷ [];
      }
  unfolding encode_error new
  encode_error-new err code details h = ground arith

  -- An error made by `errs.NotFound` is no *errs.Error. Where the body can be encoded, it is answered
  -- as an unexpected error: with status 500, with the code 0 and with a text that says "unexpected
  -- error", though its own code stands for status 404.
  pub encode_error-not_found_error :
      (entity : Text)
      → encodes (error_body (txt "unexpected error: " ++ (entity ++ txt " not found")) 0 []) ≡ true
      → ((encode_error encodes error_body (not_found_error frame entity) fresh).1.status ≡ some 500)
        × ((encode_error encodes error_body (not_found_error frame entity) fresh).1.body
            ≡ json (error_body (txt "unexpected error: " ++ (entity ++ txt " not found")) 0 [])
              ∷ [])
        × (http_status code_not_found ≡ 404)
  unfolding encode_error not_found_error
  encode_error-not_found_error entity h = (ground arith, ground arith, refl)

-- The messages of the failed rules of one field, in order.
abbrev pub messages_of : Text → List FieldError → List Text
messages_of f [] = []
messages_of f (err ∷ errs) =
    (if err.field == f then field_message err ∷ [] else []) ++ messages_of f errs

lookup-add_field_error :
    (f : Text) (fields : Dict Text (List Text)) (err : FieldError)
    → or_empty (lookup f (add_field_error fields err))
      ≡ or_empty (lookup f fields) ++ (if err.field == f then field_message err ∷ [] else [])
unfolding add_field_error
lookup-add_field_error f fields err = ground (
  arith,
  lookup-insert err.field f (or_empty (lookup err.field fields) ++ (field_message err ∷ [])) fields,
  text_beq_iff err.field f,
  append-nil (or_empty (lookup f fields)),
)

field_errors_from :
    (f : Text) (fields : Dict Text (List Text)) (errs : List FieldError)
    → or_empty (lookup f (field_errors fields errs))
      ≡ or_empty (lookup f fields) ++ messages_of f errs
unfolding field_errors
field_errors_from f fields [] = sym (append-nil (or_empty (lookup f fields)))
field_errors_from f fields (err ∷ errs) =
    field_errors_from f (add_field_error fields err) errs
    ∙ rw (lookup-add_field_error f fields err)
        (append_assoc (or_empty (lookup f fields)) _ (messages_of f errs))

-- The details of a failed validation list under each field the messages of all its failed rules,
-- in the order in which the validator reports them, and under any other field nothing.
lookup-field_errors :
    (f : Text) (errs : List FieldError)
    → or_empty (lookup f (field_errors [] errs)) ≡ messages_of f errs
unfolding lookup
lookup-field_errors f errs = field_errors_from f [] errs
