-- ===== src/Errs/Caller.antt =====
-- The file name that `caller` keeps.
use clean_architect.Common.{
  ℕ, ◌≡◌, refl, false, none, some, [], ◌∷◌, ◌++◌, nat_beq, nat_eq, All, Text, text_eq,
}
use clean_architect.Errs.{after_last_slash, short_file}

abbrev pub NoSlash : Text → Type 0
NoSlash s = All (λ c. nat_beq c 47 ≡ false) s

after_last_slash-none : (s : Text) → NoSlash s → after_last_slash s ≡ none
unfolding after_last_slash
after_last_slash-none [] h = refl
after_last_slash-none (c ∷ s) h = rw (after_last_slash-none s h.1, after_last_slash) (rw h.0)

after_last_slash-append :
    (dir base : Text) → NoSlash base → after_last_slash (dir ++ (47 ∷ base)) ≡ some base
unfolding after_last_slash
after_last_slash-append [] base h = rw (after_last_slash-none base h, after_last_slash)
after_last_slash-append (c ∷ dir) base h = rw (after_last_slash-append dir base h, after_last_slash)

-- Of a path with a non-empty directory part `c ∷ dir`, a slash and a base name without a slash,
-- `short_file` is the base name; a name without a slash it leaves as it is.
pub short_file-base :
    (c : ℕ) (dir base : Text)
    → NoSlash base
    → (short_file (c ∷ (dir ++ (47 ∷ base))) ≡ base) × (short_file base ≡ base)
unfolding short_file
short_file-base c dir [] h = (rw (after_last_slash-append dir [] h), refl)
short_file-base c dir (b ∷ base) h =
    (rw (after_last_slash-append dir (b ∷ base) h), rw (after_last_slash-none base h.1))
