-- ===== src/Logger/Fanout.antt =====
-- Which writers a record of the log reaches.
use clean_architect.Logger.{
  continued, Writer, log_none, Clock, Outside, LoggerSettings, file_write, remote_write,
  multi_write, file_type, file_writers, remote_writers, log_writers, fanned, log_writer,
}
use clean_architect.Errs.{GoError, text_error}
use clean_architect.Common.{
  ℕ, ◌≡◌, refl, sym, ap, ◌∙◌, ◌≢◌, inl, inr, false, Option, none, some, List, [], ◌∷◌, ◌++◌,
  append_assoc, arith, nat_beq, if◌then◌else◌, Bool-cases, ◌==◌, nat_eq, length, Text, txt,
  text_beq, text_eq,
}

module _ {S : Type 0} (os : Outside S) where
  fanned_same : (ws : List (Writer S)) (p : Text) (s : S) → fanned os ws p s ≡ multi_write os ws p s
  unfolding multi_write
  fanned_same [] p s = refl
  fanned_same (w ∷ ws) p s = refl

  -- The writer takes nothing of `p`, and reports no error.
  abbrev TakesNothing : Writer S → Text → Type 0
  TakesNothing w p = (s : S) → (w p s).0 ≡ (0, none)

  short_by : (p : Text) → p ≢ [] → nat_beq 0 (length p) ≡ false
  short_by [] some_bytes = absurd (some_bytes refl)
  short_by (c ∷ cs) some_bytes = ground arith

  continued-short :
      (p : Text) (s : S) (rest : (ℕ × Option GoError) × S)
      → p ≢ []
      → continued os (length p) ((0, none), s) rest
        ≡ ((0, some (text_error (txt "short write"))), s)
  unfolding continued
  continued-short p s rest some_bytes = rw (short_by p some_bytes) refl

  multi_write-here :
      (w : Writer S) (ws : List (Writer S)) (p : Text) (s : S)
      → TakesNothing w p
      → p ≢ []
      → multi_write os (w ∷ ws) p s ≡ ((0, some (text_error (txt "short write"))), (w p s).1)
  unfolding multi_write
  multi_write-here w ws p s nothing some_bytes =
      ap (λ q. continued os (length p) (q, (w p s).1) (multi_write os ws p (w p s).1)) (nothing s)
      ∙ continued-short p (w p s).1 (multi_write os ws p (w p s).1) some_bytes

  multi_write-cut :
      (xs ys zs : List (Writer S)) (w : Writer S) (p : Text) (s : S)
      → TakesNothing w p
      → p ≢ []
      → multi_write os (xs ++ (w ∷ ys)) p s ≡ multi_write os (xs ++ (w ∷ zs)) p s
  unfolding multi_write
  multi_write-cut [] ys zs w p s nothing some_bytes =
      multi_write-here w ys p s nothing some_bytes
      ∙ sym (multi_write-here w zs p s nothing some_bytes)
  multi_write-cut (x ∷ xs) ys zs w p s nothing some_bytes =
      ap (continued os (length p) (x p s))
        (multi_write-cut xs ys zs w p (x p s).1 nothing some_bytes)

  continued-failed :
      (all : ℕ) (r rest : (ℕ × Option GoError) × S)
      → rest.0.1 ≢ none
      → (continued os all r rest).0.1 ≢ none
  unfolding continued
  continued-failed all ((n, some err), s) rest failed = λ e. cc
  continued-failed all ((n, none), s) rest failed = elim (Bool-cases (nat_beq n all)) [
    | inl e ↦ rw e failed
    | inr e ↦ rw e (λ h. cc)
  ]

  multi_write-failed :
      (xs ys : List (Writer S)) (w : Writer S) (p : Text) (s : S)
      → TakesNothing w p
      → p ≢ []
      → (multi_write os (xs ++ (w ∷ ys)) p s).0.1 ≢ none
  unfolding multi_write
  multi_write-failed [] ys w p s nothing some_bytes =
      rw (multi_write-here w ys p s nothing some_bytes) (λ h. cc)
  multi_write-failed (x ∷ xs) ys w p s nothing some_bytes =
      continued-failed (length p) (x p s) (multi_write os (xs ++ (w ∷ ys)) p (x p s).1)
        (multi_write-failed xs ys w p (x p s).1 nothing some_bytes)

  no_text : (t : Text) → t ≢ [] → (t == []) ≡ false
  unfolding text_beq
  no_text [] some_bytes = absurd (some_bytes refl)
  no_text (c ∷ cs) some_bytes = refl

  file_writers_lem :
      (cfg : LoggerSettings) (now : Clock)
      → cfg.directory_path ≢ []
      → file_writers os cfg now ≡ file_write os (file_type os cfg) cfg.directory_path now ∷ []
  unfolding file_writers
  file_writers_lem cfg now directory = rw (no_text cfg.directory_path directory) refl

  remote_writers_lem :
      (cfg : LoggerSettings)
      → cfg.remote_address_url ≢ []
      → remote_writers os cfg ≡ remote_write os cfg.remote_address_url ∷ []
  unfolding remote_writers
  remote_writers_lem cfg url = rw (no_text cfg.remote_address_url url) refl

  file_write-none :
      (logger_type : ℕ) (directory : Text) (now : Clock) (p : Text)
      → logger_type ≡ log_none
      → TakesNothing (file_write os logger_type directory now) p
  unfolding file_write
  file_write-none logger_type directory now p mode s = rw mode refl

  remote_write-nothing : (url : Text) (p : Text) → TakesNothing (remote_write os url) p
  unfolding remote_write
  remote_write-nothing url p s = refl

  module _ (cfg : LoggerSettings) (now : Clock) (p : Text) (s : S) where
    -- With a directory and with a mode whose last byte is 0, as in the defaults, no record that has
    -- bytes is written to the remote server: whatever its address, none included, the log gives the
    -- same result and the same state.
    pub log_writer_ignores_remote :
        (url : Text)
        → cfg.directory_path ≢ []
        → file_type os cfg ≡ log_none
        → p ≢ []
        → log_writer os cfg now p s
          ≡ log_writer os (record cfg { remote_address_url = url }) now p s
    unfolding log_writer log_writers
    log_writer_ignores_remote url directory mode some_bytes =
        let console : List (Writer S) = if cfg.console_printer then os.stdout ∷ [] else [] in
        let file = file_write os (file_type os cfg) cfg.directory_path now in
        let other = record cfg { remote_address_url = url } in
        fanned_same (log_writers os cfg now) p s
        ∙ ap (λ ws. multi_write os (console ++ (ws ++ remote_writers os cfg)) p s)
            (file_writers_lem cfg now directory)
        ∙ multi_write-cut console (remote_writers os cfg) (remote_writers os other) file p s
            (file_write-none (file_type os cfg) cfg.directory_path now p mode) some_bytes
        ∙ ap (λ ws. multi_write os (console ++ (ws ++ remote_writers os other)) p s)
            (sym (file_writers_lem other now directory))
        ∙ sym (fanned_same (log_writers os other now) p s)

    -- With the address of a remote server every record that has bytes is reported as failed,
    -- whatever the other settings and writers.
    pub log_writer-remote_fails :
        cfg.remote_address_url ≢ [] → p ≢ [] → (log_writer os cfg now p s).0.1 ≢ none
    unfolding log_writer log_writers
    log_writer-remote_fails url some_bytes =
        let console : List (Writer S) = if cfg.console_printer then os.stdout ∷ [] else [] in
        rw (fanned_same (log_writers os cfg now) p s) (
          rw (remote_writers_lem cfg url) (
            rw
              (← append_assoc console (file_writers os cfg now)
                (remote_write os cfg.remote_address_url ∷ []))
              (multi_write-failed (console ++ file_writers os cfg now) []
                (remote_write os cfg.remote_address_url) p s
                (remote_write-nothing cfg.remote_address_url p) some_bytes)))
