-- ===== src/Bus/Delivery.antt =====
-- From a publication to what a subscriber is sent.
use clean_architect.Errs.{GoError}
use clean_architect.Bus.{EventCodec, forward}
use clean_architect.Common.{
  ◌≡◌, refl, ap, ◌⊎◌, inr, none, List, [], ◌∷◌, map, nat_eq, Text, text_eq,
}

-- What each value leaves in the variable of the subscriber, one after the other.
abbrev pub overlaid : {T : Type 0} → (T → T → T) → T → List T → List (GoError ⊎ T)
overlaid overlay v [] = []
overlaid overlay v (x ∷ xs) = inr (overlay x v) ∷ overlaid overlay (overlay x v) xs

-- Where decoding lays the fields that the bytes of a value hold over those of the variable: the
-- subscriber is sent one value for each that was published, in order and without an error, and each
-- is laid over all the earlier ones, not over a zero value.
pub forward-overlaid :
    {T : Type 0} (gob : EventCodec T) (encoded : T → Text) (overlay : T → T → T) (v : T)
    (xs : List T)
    → ((w x : T) → gob.decode_into w (encoded x) ≡ (none, overlay x w))
    → forward gob v (map encoded xs) ≡ overlaid overlay v xs
unfolding forward
forward-overlaid gob encoded overlay v [] decodes = refl
forward-overlaid gob encoded overlay v (x ∷ xs) decodes = rw (decodes v x) (
    rw (ap (λ p. p.1) (decodes v x)) (
      ap (λ r. inr (overlay x v) ∷ r)
        (forward-overlaid gob encoded overlay (overlay x v) xs decodes)))
