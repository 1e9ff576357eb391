-- ===== src/Middleware/Gzip.antt =====
-- api/http/middleware/gzip.go: a ResponseWriter whose Write goes through compress/gzip.
pub mod Writes
pub mod Reading
use clean_architect.Common.{
  ℕ, ◌+◌, ◌⊎◌, inl, inr, Bool, true, false, Option, none, some, List, [], ◌∷◌, ◌++◌, ltb, leb, not,
  if◌then◌else◌, ◌==◌, ◌&&◌, ◌||◌, nat_eq, nat_beq, length, Text, txt, text_eq, Dict, lookup,
  insert,
}
use clean_architect.Common.Int.{ℤ}
use clean_architect.Errs.{GoError}

-- A handler as its calls of the ResponseWriter, Header().Set (of a name in canonical form),
-- WriteHeader and Write, and the state that it leaves. How it goes on may depend on whether a Write
-- has taken all its bytes or returned an error.
pub data Handling (V : Type 0) : Type 0 where
  leave : V → Handling V
  set_header : Text → Text → Handling V → Handling V
  set_status : ℕ → Handling V → Handling V
  write_body : Text → (Bool → Handling V) → Handling V

-- The ResponseWriter of net/http: the header as it is set, what the first WriteHeader has sent, the
-- number of bytes that Write was given, and the bytes of the body.
pub record Reply : Type 0 where
  pub header : Dict Text Text
  pub sent : Option (ℕ × Dict Text Text)
  pub written : ℕ
  pub body : Text

-- The statuses that have a body.
unfoldable pub body_allowed : ℕ → Bool
body_allowed code = leb 200 code && (not (nat_beq code 204) && not (nat_beq code 304))

-- An informational status, which is sent at once and leaves the header to be written.
unfoldable pub informational : ℕ → Bool
informational code = leb 100 code && (ltb code 200 && not (nat_beq code 101))

unfoldable pub send : ℕ → Reply → Reply
unfolding informational
send code w = elim w.sent [
  | some s ↦ w
  | none ↦ if informational code then w else record w { sent = some (code, w.header) }
]

-- Package compress/gzip: NewWriterLevel, what Write and Close write to the writer below, write by
-- write (`none` for an error without a write), and the state after the writer below has refused.
pub record Gzip (G : Type 0) : Type 0 where
  pub new_writer_level : ℤ → GoError ⊎ G
  pub write : Text → G → Option (List Text × G)
  pub broken : G → G
  pub close : G → List Text

unfoldable pub begins : Text → Text → Bool
begins [] s = true
begins (c ∷ p) [] = false
begins (c ∷ p) (x ∷ s) = c == x && begins p s

-- strings.Contains
unfoldable pub contains_text : Text → Text → Bool
unfolding begins
contains_text [] p = begins p []
contains_text (c ∷ s) p = begins p (c ∷ s) || contains_text s p

-- r.Header.Get as a parameter, and the test of the middleware.
unfoldable pub accepts_gzip : {R : Type 0} → (R → Text → Text) → R → Bool
unfolding contains_text
accepts_gzip header r = contains_text (header r (txt "Accept-Encoding")) (txt "gzip")

abbrev pub with_encoding : Reply → Reply
with_encoding w = record w { header = insert (txt "Content-Encoding") (txt "gzip") w.header }

-- `parse_length` reads a Content-Length.
module _ (parse_length : Text → Option ℕ) where
  abbrev exceeds : Option Text → ℕ → Bool
  exceeds none n = false
  exceeds (some t) n = elim (parse_length t) [ none ↦ false | some limit ↦ ltb limit n ]

  abbrev taken : Text → Option (ℕ × Dict Text Text) → Reply → Bool × Reply
  taken p none w = (false, w)
  taken p (some (code, h)) w =
      if not (body_allowed code)
      then (false, w)
      else if exceeds (lookup (txt "Content-Length") h) (w.written + length p)
      then (false, record w { written = w.written + length p })
      else (true, record w { written = w.written + length p; body = w.body ++ p })

  -- Write of net/http: it sends the status 200 if none is sent, and refuses bytes where the status
  -- has no body or the declared length is exceeded.
  unfoldable pub write_bytes : Text → Reply → Bool × Reply
  unfolding send body_allowed lookup
  write_bytes p w = let w' = send 200 w in taken p w'.sent w'

  -- The writes of a compressor, up to the first that is refused.
  unfoldable pub write_each : List Text → Reply → Bool × Reply
  unfolding write_bytes
  write_each [] w = (true, w)
  write_each (p ∷ ps) w =
      let (ok, w') = write_bytes p w in
      let rest = write_each ps w' in elim ok [ true ↦ rest | false ↦ (false, w') ]

  unfoldable pub serve_all : {V : Type 0} → Handling V → Reply → Reply × V
  unfolding write_bytes send insert
  serve_all (leave v) w = (w, v)
  serve_all (set_header k x next) w = serve_all next (record w { header = insert k x w.header })
  serve_all (set_status code next) w = serve_all next (send code w)
  serve_all (write_body p next) w = let (ok, w') = write_bytes p w in serve_all (next ok) w'

  module _ {G : Type 0} (gz : Gzip G) where
    -- Write of the gzipWriter.
    unfoldable pub gzip_write : Text → Reply × G → Bool × (Reply × G)
    unfolding write_each
    gzip_write p (w, g) = elim (gz.write p g) [
      | none ↦ (false, (w, g))
      | some (ps, g') ↦
          let (ok, w') = write_each ps w in (ok, (w', if ok then g' else gz.broken g'))
    ]

    -- The handler over the gzipWriter: Write is its own, the other methods are those of the
    -- ResponseWriter that it embeds.
    unfoldable pub gzip_serve : {V : Type 0} → Handling V → Reply × G → (Reply × G) × V
    unfolding gzip_write send insert
    gzip_serve (leave v) wg = (wg, v)
    gzip_serve (set_header k x next) (w, g) =
        gzip_serve next (record w { header = insert k x w.header }, g)
    gzip_serve (set_status code next) (w, g) = gzip_serve next (send code w, g)
    gzip_serve (write_body p next) wg = let (ok, wg') = gzip_write p wg in gzip_serve (next ok) wg'

    abbrev pub closed : {V : Type 0} → (Reply × G) × V → Reply × V
    closed ((w, g), v) = ((write_each (gz.close g) w).1, v)

    -- GzipCompress; `header` is r.Header.Get. Where the level is none of gzip's, the middleware
    -- panics with the error.
    unfoldable pub gzip_compress :
        {R V : Type 0}
        → (R → Text → Text)
        → ℤ
        → (R → V → Handling V)
        → R
        → V
        → Reply
        → GoError ⊎ (Reply × V)
    unfolding accepts_gzip serve_all gzip_serve write_each insert
    gzip_compress header level next r s w =
        if accepts_gzip header r
        then elim (gz.new_writer_level level) [
          | inl err ↦ inl err
          | inr g ↦ inr (closed (gzip_serve (next r s) (with_encoding w, g)))
        ]
        else inr (serve_all (next r s) w)
