-- ===== src/Common/Texts.antt =====
-- A Go `string` as the list of its bytes, with the functions of package strings that the code calls.
use mathlib.Core.Path.{ap, subst}
use Prim.Native.Nat.{ℕ, zero, suc, ◌+◌}
use Prim.Native.Char.{code}
use Prim.Native.String.{String}
use mathlib.Core.Path.{◌≡◌, refl}
use mathlib.Core.Logic.{◌↔◌}
use mathlib.Core.Bool.{Bool, true, false, ◌&&◌}
use mathlib.Core.List.{List, [], ◌∷◌, ◌++◌, append_assoc}
use native.Mathlib.Omega.{arith}
use clean_architect.Common.Tests.{Eq, nat_eq, nat_beq, nat_beq_iff, if◌then◌else◌}
use clean_architect.Common.Lists.{contains, All}

abbrev pub Text : Type 0
Text = List ℕ

-- The bytes of an ASCII literal.
abbrev pub txt : String → Text
txt String.[] = []
txt (String.◌∷◌ c s) = code c ∷ txt s

unfoldable pub text_beq : Text → Text → Bool
text_beq [] [] = true
text_beq (x ∷ xs) (y ∷ ys) = nat_beq x y && text_beq xs ys
text_beq [] (y ∷ ys) = false
text_beq (x ∷ xs) [] = false

pub text_beq_iff : (s t : Text) → (text_beq s t ≡ true) ↔ (s ≡ t)
unfolding text_beq
text_beq_iff [] [] = (λ _. refl, λ _. refl)
text_beq_iff (x ∷ xs) (y ∷ ys) = ground (arith, text_beq_iff xs ys)
text_beq_iff [] (y ∷ ys) = ground arith
text_beq_iff (x ∷ xs) [] = ground arith

instance abbrev pub text_eq : Eq Text
text_eq = record { beq = text_beq; beq_iff = text_beq_iff }

-- strings.Contains(s, string(c)) for a one-byte needle.
unfoldable pub contains_byte : Text → ℕ → Bool
unfolding contains
contains_byte s c = contains s c

-- strings.Split(s, string(sep)) for a one-byte separator: the first part, and the parts after it.
unfoldable pub split_parts : ℕ → Text → Text × List Text
split_parts sep [] = ([], [])
split_parts sep (c ∷ s) =
    let (part, parts) = split_parts sep s in
    if nat_beq c sep then ([], part ∷ parts) else (c ∷ part, parts)

unfoldable pub split : ℕ → Text → List Text
unfolding split_parts
split sep s = let (part, parts) = split_parts sep s in part ∷ parts

-- strings.Join(parts, sep)
unfoldable pub join : Text → List Text → Text
join sep [] = []
join sep (p ∷ []) = p
join sep (p ∷ q ∷ ps) = p ++ (sep ++ join sep (q ∷ ps))

-- strings.TrimLeft(s, cutset) for an ASCII cutset.
unfoldable pub trim_left : Text → Text → Text
unfolding contains
trim_left cut [] = []
trim_left cut (c ∷ s) = let rest = trim_left cut s in if contains cut c then rest else c ∷ s

-- strings.TrimRight(s, cutset) for an ASCII cutset.
unfoldable pub trim_right : Text → Text → Text
unfolding contains
trim_right cut [] = []
trim_right cut (c ∷ s) = elim (trim_right cut s) [
  | [] ↦ if contains cut c then [] else c ∷ []
  | d ∷ r ↦ c ∷ d ∷ r
]

-- The number of bytes `c` in `s`.
unfoldable pub occurrences : ℕ → Text → ℕ
occurrences c [] = 0
occurrences c (d ∷ s) = (if nat_beq d c then 1 else 0) + occurrences c s

pub occurrences-append :
    (c : ℕ) (s t : Text) → occurrences c (s ++ t) ≡ occurrences c s + occurrences c t
unfolding occurrences
occurrences-append c [] t = omega arith
occurrences-append c (d ∷ s) t = omega (arith, occurrences-append c s t)

-- strings.Repeat(s, n)
unfoldable pub repeat_text : Text → ℕ → Text
repeat_text s zero = []
repeat_text s (suc n) = s ++ repeat_text s n

-- Every byte of `s` is in the cutset.
abbrev pub AllIn : Text → Text → Type 0
AllIn cut s = All (λ c. contains cut c ≡ true) s

trim_right-AllIn : (cut s : Text) → AllIn cut s → trim_right cut s ≡ []
unfolding trim_right
trim_right-AllIn cut [] h = refl
trim_right-AllIn cut (c ∷ s) h = rw (trim_right-AllIn cut s h.1, trim_right) (rw h.0)

-- A byte outside the cutset stops the trim, and what follows it in the cutset goes.
pub trim_right-append :
    (cut s : Text) (c : ℕ) (t : Text)
    → contains cut c ≡ false
    → AllIn cut t
    → trim_right cut (s ++ (c ∷ t)) ≡ s ++ (c ∷ [])
unfolding trim_right
trim_right-append cut [] c t h k = rw (trim_right-AllIn cut t k, trim_right) (rw h)
trim_right-append cut (d ∷ []) c t h k = rw (trim_right-append cut [] c t h k, trim_right)
trim_right-append cut (d ∷ e ∷ s) c t h k = rw (trim_right-append cut (e ∷ s) c t h k, trim_right)

-- What stands in the cutset goes, up to the first byte that does not.
pub trim_left-append :
    (cut s : Text) (c : ℕ) (t : Text)
    → AllIn cut s
    → contains cut c ≡ false
    → trim_left cut (s ++ (c ∷ t)) ≡ c ∷ t
unfolding trim_left
trim_left-append cut [] c t h k = rw k refl
trim_left-append cut (d ∷ s) c t h k = rw h.0 (trim_left-append cut s c t h.1 k)

-- The byte `sep` does not stand in `s`.
abbrev pub IsFree : ℕ → Text → Type 0
IsFree sep s = All (λ c. nat_beq c sep ≡ false) s

pub split_parts-append :
    (sep : ℕ) (s t : Text) → IsFree sep s → (split_parts sep (s ++ (sep ∷ t))).0 ≡ s
unfolding split_parts
split_parts-append sep [] t h = rw ((nat_beq_iff sep sep).1 refl) refl
split_parts-append sep (c ∷ s) t h =
    rw (h.0) (ap (λ (u : Text). c ∷ u) (split_parts-append sep s t h.1))

contains-append_right : (s t : Text) (c : ℕ) → contains t c ≡ true → contains (s ++ t) c ≡ true
unfolding contains
contains-append_right [] t c h = h
contains-append_right (d ∷ s) t c h = ground (arith, contains-append_right s t c h)

AllIn-suffix : (p s : Text) → AllIn (p ++ s) s
unfolding contains
AllIn-suffix p [] = tt
AllIn-suffix p (c ∷ s) = (
  contains-append_right p (c ∷ s) c (ground (arith, nat_beq_iff c c)),
  subst (λ u. All (λ d. contains u d ≡ true) s) (append_assoc p (c ∷ []) s)
      (AllIn-suffix (p ++ (c ∷ [])) s),
)

-- Every text is within itself as a cutset.
pub AllIn-self : (s : Text) → AllIn s s
AllIn-self s = AllIn-suffix [] s
