-- ===== src/Middleware/Gzip/Reading.antt =====
-- What a client reads of a compressed answer.
use clean_architect.Common.{
  ℕ, ◌≡◌, refl, sym, ap, ◌∙◌, inl, inr, true, false, Option, none, some, List, [], ◌∷◌, ◌++◌,
  if◌then◌else◌, ◌==◌, Bool-cases, nat_eq, Text, txt, text_eq, text_beq, Dict, lookup, insert,
  lookup-insert,
}
use clean_architect.Common.Int.{ℤ}
use mathlib.Core.Path.{subst}
use clean_architect.Middleware.Gzip.{
  Handling, leave, set_header, set_status, write_body, Reply, body_allowed, send, Gzip,
  accepts_gzip, write_bytes, write_each, serve_all, gzip_write, gzip_serve, closed, with_encoding,
  gzip_compress,
}
use clean_architect.Middleware.Gzip.Writes.{
  joined, content_encoding, content_length, SentClean, IsClean, code_of, send-IsClean, send-body,
  clash, send-code, send-sent, sent_after, write_bytes-Takes, write_each-TakesAll, code_after,
}

-- The status at the end, where net/http sends 200 if none is sent, and what the client reads.
abbrev pub final_status : Reply → Option ℕ
final_status w = code_of (send 200 w).sent

abbrev encoding_of : Option (ℕ × Dict Text Text) → Option Text
encoding_of none = none
encoding_of (some (code, h)) = lookup content_encoding h

abbrev decoded : (Text → Text) → Option Text → Text → Text
decoded gunzip none body = body
decoded gunzip (some encoding) body = if encoding == txt "gzip" then gunzip body else body

decoded_gzip :
    (gunzip : Text → Text) (body : Text) → decoded gunzip (some (txt "gzip")) body ≡ gunzip body
unfolding text_beq
decoded_gzip gunzip body = refl

-- A client that decompresses a body whose header says Content-Encoding: gzip, and no other.
abbrev pub received : (Text → Text) → Reply → Text
received gunzip w = decoded gunzip (encoding_of (send 200 w).sent) w.body

received-clean :
    (gunzip : Text → Text) (enc : Option Text) (w : Reply)
    → IsClean enc w
    → received gunzip w ≡ decoded gunzip enc w.body
received-clean gunzip enc w c =
    let cv = send-IsClean enc 200 w (unfold body_allowed in refl) c in
    let ((code, h), e) = sent_after w in
    let k : SentClean enc (some (code, h)) = subst (SentClean enc) e cv.sent_clean in
    ap (λ x. decoded gunzip (encoding_of x) w.body) e ∙ ap (λ x. decoded gunzip x w.body) k.0

-- What compress/gzip documents of a writer that was made at a level it accepts, for a relation
-- between what it was given, what it has written below and its state: Write fails only if the writer
-- below does, the first Write writes below (the header of the format), and after Close a reader gets
-- back what was given.
pub record Gunzips {G : Type 0} (gz : Gzip G) (gunzip : Text → Text) : Type 1 where
  pub Holds : Text → Text → G → Type 0
  pub new_holds : (level : ℤ) (g : G) → gz.new_writer_level level ≡ inr g → Holds [] [] g
  pub write_holds :
      (given below p : Text) (g : G)
      → Holds given below g
      → (ps : List Text) × (g' : G) × (gz.write p g ≡ some (ps, g'))
        × Holds (given ++ p) (below ++ joined ps) g'
        × (below ≡ [] → (q : Text) × (qs : List Text) × (ps ≡ q ∷ qs))
  pub close_reads :
      (given below : Text) (g : G)
      → Holds given below g
      → gunzip (below ++ joined (gz.close g)) ≡ given

-- The handler, whose writes all succeed, sets neither the encoding nor the length, and every status
-- that it gives has a body.
abbrev pub IsPlain : {V : Type 0} → Handling V → Type 0
IsPlain (leave v) = Unit {0}
IsPlain (set_header k x next) =
    ((k == content_encoding) ≡ false) × ((k == content_length) ≡ false) × IsPlain next
IsPlain (set_status code next) = (body_allowed code ≡ true) × IsPlain next
IsPlain (write_body p next) = IsPlain (next true)

-- The same state, the same final status, and the same bytes for the client.
abbrev pub ReadsSame : {V : Type 0} → (Text → Text) → Reply × V → Reply × V → Type 0
ReadsSame gunzip (w, v) (w', v') =
    (v ≡ v') × (final_status w ≡ final_status w') × (received gunzip w ≡ received gunzip w')

set-IsClean :
    (enc : Option Text) (k x : Text) (w : Reply)
    → (k == content_encoding) ≡ false
    → (k == content_length) ≡ false
    → IsClean enc w
    → IsClean enc (record w { header = insert k x w.header })
set-IsClean enc k x w h l c = record {
  encoding = rw (lookup-insert k content_encoding x w.header, h) c.encoding;
  no_length = rw (lookup-insert k content_length x w.header, l) c.no_length;
  sent_clean = c.sent_clean;
}

module _ {G : Type 0} (parse_length : Text → Option ℕ) (gz : Gzip G) (gunzip : Text → Text)
    (gunzips : Gunzips gz gunzip) where
  -- The answer of the handler alone beside that below the compressor.
  record InStep (w w' : Reply) (g : G) : Type 0 where
    plain_clean : IsClean none w
    gzip_clean : IsClean (some (txt "gzip")) w'
    same_code : code_of w.sent ≡ code_of w'.sent
    unsent_empty : w'.sent ≡ none → w'.body ≡ []
    holds : gunzips.Holds w.body w'.body g

  send-InStep :
      (code : ℕ) (w w' : Reply) (g : G)
      → body_allowed code ≡ true
      → InStep w w' g
      → InStep (send code w) (send code w') g
  send-InStep code w w' g h i = record {
    plain_clean = send-IsClean none code w h i.plain_clean;
    gzip_clean = send-IsClean (some (txt "gzip")) code w' h i.gzip_clean;
    same_code = send-code code w w' h i.same_code;
    unsent_empty = λ e. send-sent code w' h e;
    holds = rw (send-body code w, send-body code w') i.holds;
  }

  -- Where both take a Write.
  record Writes (p : Text) (w w' : Reply) (g : G) : Type 0 where
    after : Reply × G
    taken_by : gzip_write parse_length gz p (w', g) ≡ (true, after)
    plain_taken : (write_bytes parse_length p w).0 ≡ true
    in_step : InStep (write_bytes parse_length p w).1 after.0 after.1

  write-InStep : (p : Text) (w w' : Reply) (g : G) → InStep w w' g → Writes p w w' g
  unfolding gzip_write
  write-InStep p w w' g i =
      let (ps, g', e, holds, first) = gunzips.write_holds w.body w'.body p g i.holds in
      let t = write_bytes-Takes parse_length none p w i.plain_clean in
      let a = write_each-TakesAll parse_length (some (txt "gzip")) ps w' i.gzip_clean in
      let v = (write_each parse_length ps w').1 in
      let (s, l) = sent_after w' in
      let same =
        code_after parse_length (some (txt "gzip")) ps w' a (λ k. first (i.unsent_empty k)) in
      record {
        after = (v, g');
        taken_by = rw (e, a.took_all, gzip_write) refl;
        plain_taken = t.took;
        in_step = record {
          plain_clean = t.clean;
          gzip_clean = a.all_clean;
          same_code =
              t.sent_by ∙ (send-code 200 w w' (unfold body_allowed in refl) i.same_code ∙ sym same);
          unsent_empty = λ k. clash (ap code_of (sym k) ∙ (same ∙ ap code_of l));
          holds = rw (t.grown, a.grown_by) holds;
        };
      }

  run-ReadsSame :
      {V : Type 0} (h : Handling V) (w w' : Reply) (g : G)
      → IsPlain h
      → InStep w w' g
      → ReadsSame gunzip
          (closed parse_length gz (gzip_serve parse_length gz h (w', g)))
          (serve_all parse_length h w)
  unfolding gzip_serve serve_all
  run-ReadsSame (leave v) w w' g plain i =
      let a = write_each-TakesAll parse_length (some (txt "gzip")) (gz.close g) w' i.gzip_clean in
      let end = (write_each parse_length (gz.close g) w').1 in
      (
        refl,
        a.sent_first ∙ sym (send-code 200 w w' (unfold body_allowed in refl) i.same_code),
        received-clean gunzip (some (txt "gzip")) end a.all_clean
            ∙ (decoded_gzip gunzip end.body
                ∙ ap gunzip a.grown_by
                ∙ (gunzips.close_reads w.body w'.body g i.holds
                    ∙ sym (received-clean gunzip none w i.plain_clean))),
      )
  run-ReadsSame (set_header k x next) w w' g (h, l, plain) i =
      run-ReadsSame next _ _ g plain record {
        plain_clean = set-IsClean none k x w h l i.plain_clean;
        gzip_clean = set-IsClean (some (txt "gzip")) k x w' h l i.gzip_clean;
        same_code = i.same_code;
        unsent_empty = i.unsent_empty;
        holds = i.holds;
      }
  run-ReadsSame (set_status code next) w w' g (h, plain) i =
      run-ReadsSame next (send code w) (send code w') g plain (send-InStep code w w' g h i)
  run-ReadsSame (write_body p next) w w' g plain i =
      let k = write-InStep p w w' g i in
      rw (k.taken_by, k.plain_taken, gzip_serve, serve_all)
        (run-ReadsSame (next true) (write_bytes parse_length p w).1 k.after.0 k.after.1 plain
          k.in_step)

  -- At a level that compress/gzip accepts, for every handler and request, where nothing is sent and
  -- the header has neither Content-Encoding nor Content-Length: if the handler, as long as its writes
  -- succeed, sets neither of the two and gives no status without a body, then behind GzipCompress it
  -- leaves the same state, the same status is sent, and a client that decompresses exactly the bodies
  -- whose header says Content-Encoding: gzip reads the same bytes as from the handler alone.
  pub gzip_compress-ReadsSame :
      {R V : Type 0} (header : R → Text → Text) (next : R → V → Handling V) (level : ℤ) (g : G)
      (r : R) (s : V) (h : Dict Text Text)
      → gz.new_writer_level level ≡ inr g
      → lookup content_encoding h ≡ none
      → lookup content_length h ≡ none
      → IsPlain (next r s)
      → let start : Reply = record { header = h; sent = none; written = 0; body = [] } in
        (answer : Reply × V) × (gzip_compress parse_length gz header level next r s start
          ≡ inr answer)
        × ReadsSame gunzip answer (serve_all parse_length (next r s) start)
  unfolding gzip_compress text_beq
  gzip_compress-ReadsSame header next level g r s h made no_encoding no_length plain =
      let start : Reply = record { header = h; sent = none; written = 0; body = [] } in
      elim (Bool-cases (accepts_gzip header r)) [
        | inl e ↦ (
          closed parse_length gz (gzip_serve parse_length gz (next r s) (with_encoding start, g)),
          rw (e, made) refl,
          run-ReadsSame (next r s) start (with_encoding start) g plain record {
            plain_clean = record { encoding = no_encoding; no_length = no_length; sent_clean = tt };
            gzip_clean = record {
              encoding = rw (lookup-insert content_encoding content_encoding (txt "gzip") h) refl;
              no_length =
                  rw (lookup-insert content_encoding content_length (txt "gzip") h) no_length;
              sent_clean = tt;
            };
            same_code = refl;
            unsent_empty = λ k. refl;
            holds = gunzips.new_holds level g made;
          },
        )
        | inr e ↦ (serve_all parse_length (next r s) start, rw e refl, (refl, refl, refl))
      ]
