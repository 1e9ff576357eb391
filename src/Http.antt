-- ===== src/Http.antt =====
-- Package net/http as the handlers use it: the response that they write, and what they read of a
-- request.
use clean_architect.Common.{ℕ, Option, none, some, List, [], ◌∷◌, ◌++◌, nat_eq, Text, txt, text_eq}

-- What is written to a body: a value that encoding/json encodes, or a line of text.
pub data Chunk (V : Type 0) : Type 0 where
  json : V → Chunk V
  line : Text → Chunk V

-- `status` is `none` until the header is written. The content type counts only if it is set before.
pub record Response (V : Type 0) : Type 0 where
  pub status : Option ℕ
  pub content_type : Text
  pub body : List (Chunk V)

abbrev pub fresh : {V : Type 0} → Response V
fresh = record { status = none; content_type = []; body = [] }

module _ {V : Type 0} where
  -- w.Header().Set("Content-Type", …)
  unfoldable pub set_content_type : Text → Response V → Response V
  set_content_type t w = elim w.status [ none ↦ record w { content_type = t } | some s ↦ w ]

  -- w.WriteHeader: the first status stands, a later one is dropped.
  unfoldable pub write_header : ℕ → Response V → Response V
  write_header code w = elim w.status [ none ↦ record w { status = some code } | some s ↦ w ]

  -- w.Write, which writes the header with 200 if none is written.
  unfoldable pub write : Chunk V → Response V → Response V
  unfolding write_header
  write c w = let w' = write_header 200 w in record w' { body = w'.body ++ (c ∷ []) }

  -- http.Error
  unfoldable pub http_error : Text → ℕ → Response V → Response V
  unfolding set_content_type write_header write
  http_error msg code w =
      write (line msg) (write_header code (set_content_type (txt "text/plain; charset=utf-8") w))

-- A handler: from a request and the state of the program to the response and the state after it.
abbrev pub Handler : Type 0 → Type 0 → Type 0 → Type 0
Handler R V W = R → Response V → W → Response V × W
