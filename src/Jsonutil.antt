-- ===== src/Jsonutil.antt =====
-- pkg/jsonutil: JSON bodies and error responses.
pub mod Responses
use clean_architect.Errs.{
  GoError, AppError, Detail, http_status, message, as_app_pointer, text_error, wrapped, new,
  code_invalid_argument,
}
use clean_architect.Http.{Chunk, json, Response, set_content_type, write_header, write, http_error}
use clean_architect.Common.{
  ℕ, ◌⊎◌, inl, inr, Bool, not, Option, none, some, List, [], ◌∷◌, ◌++◌, if◌then◌else◌, ◌==◌, nat_eq,
  Text, txt, text_eq, Dict, lookup, insert,
}

-- encoding/json is a parameter: `encodes` tells whether it encodes a value.
module _ {V : Type 0} (encodes : V → Bool) where
  unfoldable pub encode : ℕ → V → Response V → Option GoError × Response V
  unfolding set_content_type write_header write http_error
  encode status v w =
      let w' = write_header status (set_content_type (txt "application/json") w) in
      if encodes v then (none, write (json v) w') else (
        some (wrapped (txt "failed to encode json: ") (text_error [])),
        http_error (txt "failed to encode json") 500 w',
      )

  -- The body of an error response, as a value of `V`.
  module _ (error_body : Text → ℕ → List Detail → V) where
    unfoldable pub encode_error : GoError → Response V → Option GoError × Response V
    unfolding encode as_app_pointer http_status message
    encode_error err w = elim (as_app_pointer err) [
      | none ↦ encode 500 (error_body (txt "unexpected error: " ++ message err) 0 []) w
      | some e ↦ encode (http_status e.code) (error_body e.msg e.code e.details) w
    ]

-- One failed rule of package validator: the field in lower case, the tag and its parameter.
pub record FieldError : Type 0 where
  pub field : Text
  pub tag : Text
  pub param : Text

-- The switch over the tags.
unfoldable pub field_message : FieldError → Text
field_message err =
    if err.tag == txt "required"
    then txt "the " ++ (err.field ++ txt " is required.")
    else if err.tag == txt "email"
    then txt "the " ++ (err.field ++ txt " must be a valid email address.")
    else if err.tag == txt "min"
    then txt "the "
      ++ (err.field ++ (txt " must be at least " ++ (err.param ++ txt " characters.")))
    else if err.tag == txt "max"
    then txt "the "
      ++ (err.field ++ (txt " may not be greater than " ++ (err.param ++ txt " characters.")))
    else txt "the " ++ (err.field ++ txt " is invalid.")

abbrev pub or_empty : Option (List Text) → List Text
or_empty none = []
or_empty (some messages) = messages

-- errFields[fieldName] = append(errFields[fieldName], errField)
unfoldable pub add_field_error : Dict Text (List Text) → FieldError → Dict Text (List Text)
unfolding lookup insert field_message
add_field_error fields err =
    insert err.field (or_empty (lookup err.field fields) ++ (field_message err ∷ [])) fields

unfoldable pub field_errors : Dict Text (List Text) → List FieldError → Dict Text (List Text)
unfolding add_field_error
field_errors fields [] = fields
field_errors fields (err ∷ errs) = field_errors (add_field_error fields err) errs

-- What validate.Struct answers.
pub data Validation : Type 0 where
  valid : Validation
  invalid : List FieldError → Validation
  failed : GoError → Validation

-- The decoder of encoding/json and the rules of package validator are parameters, by their answers
-- on the request's body.
module _ (frame : Option (Text × ℕ)) where
  unfoldable pub decode : {T : Type 0} → GoError ⊎ T → GoError ⊎ T
  unfolding new
  decode (inl err) =
      inl (new frame (wrapped (txt "failed to decode json: ") err) code_invalid_argument [])
  decode (inr v) = inr v

  abbrev checked : {T : Type 0} → T → Validation → GoError ⊎ T
  checked v valid = inr v
  checked v (invalid errs) = inl (
      new frame (text_error (txt "given body is not valid")) code_invalid_argument
        (field_errors [] errs ∷ []))
  checked v (failed err) =
      inl (new frame (wrapped (txt "failed to validate json: ") err) code_invalid_argument [])

  unfoldable pub decode_and_validate : {T : Type 0} → (T → Validation) → GoError ⊎ T → GoError ⊎ T
  unfolding decode field_errors new
  decode_and_validate validate body = elim (decode body) [
    | inl err ↦ inl err
    | inr v ↦ checked v (validate v)
  ]
