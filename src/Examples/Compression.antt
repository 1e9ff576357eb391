-- ===== src/Examples/Compression.antt =====
-- A compressor that writes one byte at its first Write, and what it was given when it is closed.
use clean_architect.Common.Int.{pos}
use clean_architect.Middleware.Gzip.{
  Handling, leave, set_header, set_status, write_body, Reply, Gzip, serve_all, gzip_compress,
}
use clean_architect.Middleware.Gzip.Writes.{joined}
use clean_architect.Middleware.Gzip.Reading.{Gunzips, ReadsSame, gzip_compress-ReadsSame}
use clean_architect.Common.{
  ℕ, ◌+◌, ◌≡◌, refl, sym, ap, ◌∙◌, inr, Bool, true, false, Option, none, some, List, [], ◌∷◌, ◌++◌,
  append-nil, if◌then◌else◌, nat_eq, Text, txt, text_eq,
}

abbrev mark : Text
mark = 31 ∷ []

-- Whether the first byte is written, and the bytes that are kept.
abbrev Kept : Type 0
Kept = Bool × Text

abbrev begin_with : Bool → List Text
begin_with true = []
begin_with false = mark ∷ []

abbrev below_of : Bool → Text
below_of true = mark
below_of false = []

abbrev keeping : Gzip Kept
keeping = record {
  new_writer_level = λ level. inr (false, []);
  write = λ p. λ k. some (begin_with k.0, (true, k.1 ++ p));
  broken = λ k. k;
  close = λ k. begin_with k.0 ++ (k.1 ∷ []);
}

abbrev after_mark : Text → Text
after_mark [] = []
after_mark (_ ∷ s) = s

abbrev IsKept : Text → Text → Kept → Type 0
IsKept given below k = (k.1 ≡ given) × (below ≡ below_of k.0)

begun_once : (b : Bool) → below_of b ++ joined (begin_with b) ≡ mark
unfolding joined
begun_once true = refl
begun_once false = refl

first_mark : (b : Bool) → below_of b ≡ [] → (q : Text) × (qs : List Text) × (begin_with b ≡ q ∷ qs)
first_mark true e = cc
first_mark false e = (mark, [], refl)

closed_reads :
    (b : Bool) (kept : Text)
    → after_mark (below_of b ++ joined (begin_with b ++ (kept ∷ []))) ≡ kept
unfolding joined
closed_reads true kept = append-nil kept
closed_reads false kept = append-nil kept

keeping-Gunzips : Gunzips keeping after_mark
keeping-Gunzips = record {
  Holds = IsKept;
  new_holds = λ level. λ k. λ e. (cc, cc);
  write_holds = λ given. λ below. λ p. λ k. λ h. (
    begin_with k.0,
    (true, k.1 ++ p),
    refl,
    (ap (λ s. s ++ p) h.0, ap (λ s. s ++ joined (begin_with k.0)) h.1 ∙ begun_once k.0),
    λ e. first_mark k.0 (sym h.1 ∙ e),
  );
  close_reads = λ given. λ below. λ k. λ h.
      ap (λ s. after_mark (s ++ joined (begin_with k.0 ++ (k.1 ∷ [])))) h.1
      ∙ (closed_reads k.0 k.1 ∙ h.0);
}

-- A list in two writes, the second of which waits for the first.
abbrev list_users : Text → ℕ → Handling ℕ
list_users r served = set_header (txt "Content-Type") (txt "application/json") (
    set_status 200 (
      write_body (txt "[1,")
        (λ ok. if ok then write_body (txt "2]") (λ _. leave (served + 1)) else leave served)))

abbrev header_of : Text → Text → Text
header_of r name = r

abbrev no_length : Text → Option ℕ
no_length t = none

abbrev unsent : Reply
unsent = record { header = []; sent = none; written = 0; body = [] }

gzip_compress-ReadsSame_example :
    (answer : Reply × ℕ) × (gzip_compress no_length keeping header_of
        (pos 9)
        list_users
        (txt "br, gzip")
        0
        unsent
      ≡ inr answer)
    × ReadsSame after_mark answer (serve_all no_length (list_users (txt "br, gzip") 0) unsent)
unfolding clean_architect.Common.lookup clean_architect.Common.text_beq
    clean_architect.Middleware.Gzip.body_allowed
gzip_compress-ReadsSame_example =
    gzip_compress-ReadsSame no_length keeping after_mark keeping-Gunzips header_of list_users
      (pos 9) (false, []) (txt "br, gzip") 0 [] refl refl refl (refl, refl, (refl, tt))
