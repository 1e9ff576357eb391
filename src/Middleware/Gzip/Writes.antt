-- ===== src/Middleware/Gzip/Writes.antt =====
-- The writes of an answer whose status has a body and that declares no length.
use clean_architect.Common.{
  ℕ, ◌+◌, ◌≡◌, refl, sym, ap, ◌∙◌, inl, inr, Bool, true, false, Option, none, some, List, [], ◌∷◌,
  ◌++◌, append-nil, append_assoc, arith, Option-cases, nat_eq, length, Text, txt, text_eq, Dict,
  lookup,
}
use mathlib.Core.Path.{subst}
use clean_architect.Middleware.Gzip.{
  Reply, body_allowed, informational, send, write_bytes, write_each,
}

-- The bytes of the writes, in order.
unfoldable pub joined : List Text → Text
joined [] = []
joined (p ∷ ps) = p ++ joined ps

abbrev pub content_encoding : Text
content_encoding = txt "Content-Encoding"

abbrev pub content_length : Text
content_length = txt "Content-Length"

-- The encoding that is set and sent; no length is declared, and the status that is sent has a body.
abbrev pub SentClean : Option Text → Option (ℕ × Dict Text Text) → Type 0
SentClean enc none = Unit {0}
SentClean enc (some (code, h)) =
    (lookup content_encoding h ≡ enc)
    × (lookup content_length h ≡ none)
    × (body_allowed code ≡ true)

pub record IsClean (enc : Option Text) (w : Reply) : Type 0 where
  pub encoding : lookup content_encoding w.header ≡ enc
  pub no_length : lookup content_length w.header ≡ none
  pub sent_clean : SentClean enc w.sent

abbrev pub code_of : Option (ℕ × Dict Text Text) → Option ℕ
code_of none = none
code_of (some (code, h)) = some code

not_informational : (code : ℕ) → body_allowed code ≡ true → informational code ≡ false
unfolding body_allowed informational
not_informational code h = ground arith

send-none :
    (code : ℕ) (w : Reply)
    → body_allowed code ≡ true
    → w.sent ≡ none
    → send code w ≡ record w { sent = some (code, w.header) }
unfolding send
send-none code w h e = rw (e, not_informational code h) refl

send-some : (code : ℕ) (w : Reply) (s : ℕ × Dict Text Text) → w.sent ≡ some s → send code w ≡ w
unfolding send
send-some code w s e = rw e refl

pub send-IsClean :
    (enc : Option Text) (code : ℕ) (w : Reply)
    → body_allowed code ≡ true
    → IsClean enc w
    → IsClean enc (send code w)
send-IsClean enc code w h c = elim (Option-cases w.sent) [
  | inl e ↦ rw (send-none code w h e) record {
    encoding = c.encoding;
    no_length = c.no_length;
    sent_clean = (c.encoding, c.no_length, h);
  }
  | inr (s, e) ↦ rw (send-some code w s e) c
]

pub send-body : (code : ℕ) (w : Reply) → (send code w).body ≡ w.body
unfolding send
send-body code w = ground arith

pub clash : {A : Type 0} {code : ℕ} → ◌≡◌ {A = Option ℕ} none (some code) → A
clash e = cc

-- Answers with the same status still have the same after a send.
pub send-code :
    (code : ℕ) (w w' : Reply)
    → body_allowed code ≡ true
    → code_of w.sent ≡ code_of w'.sent
    → code_of (send code w).sent ≡ code_of (send code w').sent
send-code code w w' h same = elim (Option-cases w.sent) [
  | inl e ↦ elim (Option-cases w'.sent) [
    | inl e' ↦ rw (send-none code w h e, send-none code w' h e') refl
    | inr (s, e') ↦ clash (ap code_of (sym e) ∙ (same ∙ ap code_of e'))
  ]
  | inr (s, e) ↦ elim (Option-cases w'.sent) [
    | inl e' ↦ clash (ap code_of (sym e') ∙ (sym same ∙ ap code_of e))
    | inr (s', e') ↦ rw (send-some code w s e, send-some code w' s' e') same
  ]
]

pub send-sent :
    {A : Type 0} (code : ℕ) (w : Reply) → body_allowed code ≡ true → (send code w).sent ≡ none → A
send-sent code w h k = elim (Option-cases w.sent) [
  | inl e ↦ clash (ap code_of (sym k) ∙ ap (λ x. code_of x.sent) (send-none code w h e))
  | inr (s, e) ↦
      clash (ap code_of (sym k) ∙ (ap (λ x. code_of x.sent) (send-some code w s e) ∙ ap code_of e))
]

pub sent_after : (w : Reply) → (s : ℕ × Dict Text Text) × ((send 200 w).sent ≡ some s)
sent_after w = elim (Option-cases w.sent) [
  | inl e ↦ ((200, w.header), rw (send-none 200 w (unfold body_allowed in refl) e) refl)
  | inr (s, e) ↦ (s, rw (send-some 200 w s e) e)
]

-- A write of a clean answer takes all its bytes.
pub record Takes (enc : Option Text) (w : Reply) (p : Text) (r : Bool × Reply) : Type 0 where
  pub took : r.0 ≡ true
  pub clean : IsClean enc r.1
  pub grown : r.1.body ≡ w.body ++ p
  pub sent_by : code_of r.1.sent ≡ code_of (send 200 w).sent

pub write_bytes-Takes :
    (parse_length : Text → Option ℕ) (enc : Option Text) (p : Text) (w : Reply)
    → IsClean enc w
    → Takes enc w p (write_bytes parse_length p w)
unfolding write_bytes
write_bytes-Takes parse_length enc p w c =
    let v = send 200 w in
    let cv = send-IsClean enc 200 w (unfold body_allowed in refl) c in
    let ((code, h), e) = sent_after w in
    let (enc_h, len_h, allowed) : SentClean enc (some (code, h)) =
      subst (SentClean enc) e cv.sent_clean in
    let done : write_bytes parse_length p w
        ≡ (true, record v { written = v.written + length p; body = v.body ++ p }) =
      rw (e, allowed, len_h, write_bytes)
        (ap (λ x. (true, record v { sent = x; written = v.written + length p; body = v.body ++ p }))
          e) in
    rw done record {
      took = refl;
      clean = record {
        encoding = cv.encoding;
        no_length = cv.no_length;
        sent_clean = cv.sent_clean;
      };
      grown = ap (λ b. b ++ p) (send-body 200 w);
      sent_by = refl;
    }

-- The status that is sent first stands.
send_again :
    (v w : Reply)
    → code_of v.sent ≡ code_of (send 200 w).sent
    → code_of (send 200 v).sent ≡ code_of v.sent
send_again v w e = elim (Option-cases v.sent) [
  | inl k ↦ let (s, l) = sent_after w in clash (ap code_of (sym k) ∙ (e ∙ ap code_of l))
  | inr (s, k) ↦ rw (send-some 200 v s k) refl
]

sent_kept :
    (w : Reply) (code : ℕ) → code_of w.sent ≡ some code → code_of (send 200 w).sent ≡ some code
sent_kept w code e = elim (Option-cases w.sent) [
  | inl k ↦ clash (ap code_of (sym k) ∙ e)
  | inr (s, k) ↦ rw (send-some 200 w s k) e
]

-- So do writes one behind the other, whose status is that of the first.
pub record TakesAll (enc : Option Text) (w : Reply) (ps : List Text) (r : Bool × Reply)
    : Type 0 where
  pub took_all : r.0 ≡ true
  pub all_clean : IsClean enc r.1
  pub grown_by : r.1.body ≡ w.body ++ joined ps
  pub sent_first : code_of (send 200 r.1).sent ≡ code_of (send 200 w).sent
  pub sent_stays : (code : ℕ) → code_of w.sent ≡ some code → code_of r.1.sent ≡ some code
  pub sent_next :
      (q : Text) (qs : List Text) → ps ≡ q ∷ qs → code_of r.1.sent ≡ code_of (send 200 w).sent

pub write_each-TakesAll :
    (parse_length : Text → Option ℕ) (enc : Option Text) (ps : List Text) (w : Reply)
    → IsClean enc w
    → TakesAll enc w ps (write_each parse_length ps w)
unfolding write_each joined
write_each-TakesAll parse_length enc [] w c = record {
  took_all = refl;
  all_clean = c;
  grown_by = sym (append-nil w.body);
  sent_first = refl;
  sent_stays = λ code. λ e. e;
  sent_next = λ q. λ qs. λ e. cc;
}
write_each-TakesAll parse_length enc (p ∷ ps) w c =
    let v = (write_bytes parse_length p w).1 in
    let t = write_bytes-Takes parse_length enc p w c in
    let rest = write_each-TakesAll parse_length enc ps v t.clean in
    let (s, l) = sent_after w in
    let first = send_again v w t.sent_by ∙ t.sent_by in
    rw (t.took, write_each)
      record {
        took_all = rest.took_all;
        all_clean = rest.all_clean;
        grown_by =
            rest.grown_by ∙ (ap (λ b. b ++ joined ps) t.grown ∙ append_assoc w.body p (joined ps));
        sent_first = rest.sent_first ∙ first;
        sent_stays = λ code. λ e. rest.sent_stays code (t.sent_by ∙ sent_kept w code e);
        sent_next =
            λ q. λ qs. λ e. rest.sent_stays s.0 (t.sent_by ∙ ap code_of l) ∙ sym (ap code_of l);
      }

pub code_after :
    (parse_length : Text → Option ℕ) (enc : Option Text) (ps : List Text) (w : Reply)
    → TakesAll enc w ps (write_each parse_length ps w)
    → (w.sent ≡ none → (q : Text) × (qs : List Text) × (ps ≡ q ∷ qs))
    → code_of (write_each parse_length ps w).1.sent ≡ code_of (send 200 w).sent
code_after parse_length enc ps w a reaches = elim (Option-cases w.sent) [
  | inl e ↦ let (q, qs, k) = reaches e in a.sent_next q qs k
  | inr (s, e) ↦ a.sent_stays s.0 (ap code_of e) ∙ sym (sent_kept w s.0 (ap code_of e))
]
