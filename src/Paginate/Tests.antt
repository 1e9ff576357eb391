-- ===== src/Paginate/Tests.antt =====
-- Requests whose result can be followed in the source.
use clean_architect.Common.Int.{pos}
use clean_architect.Paginate.{Values, parse_from_request}
use clean_architect.Common.{
  ℕ, zero, suc, ◌+◌, ◌-◌, ◌*◌, ◌/◌, ◌%◌, ◌^◌, ◌≤◌, ◌<◌, String, ◌≡◌, refl, sym, ap, ◌∙◌, ◌≡⟨◌⟩◌, ◌∎,
  ◌≢◌, ◌↔◌, ◌⊎◌, inl, inr, Bool, true, false, not, ◌&&◌, ◌||◌, Option, none, some, List, [], ◌∷◌,
  ◌++◌, map, append-nil, append_assoc, arith, ltb, leb, nat_beq, if◌then◌else◌, nat_beq_iff, ltb→lt,
  leb→le, Bool-cases, Option-cases, Eq, ◌==◌, nat_eq, ◌>>=◌, length, length-append, replicate,
  concat_map, contains, All, All-append, Text, txt, text_beq, text_beq_iff, text_eq, contains_byte,
  split_parts, split, join, trim_left, trim_right, occurrences, occurrences-append, repeat_text,
  decimal, atoi, AllIn, trim_right-append, Dict, lookup, insert, remove, lookup-insert,
  lookup-remove, beq_refl, dict_laws,
}

abbrev request : Values
request =
    (txt "page", txt "3" ∷ [])
    ∷ (txt "per_page", txt "0" ∷ [])
    ∷ (txt "sort", txt "name" ∷ txt "asc" ∷ txt "age" ∷ [])
    ∷ (txt "age", txt "18" ∷ txt "gte" ∷ txt "60" ∷ txt "lt" ∷ [])
    ∷ (txt "a;b", txt "1" ∷ [])
    ∷ []

parse_test : parse_from_request request ≡ record {
  page = pos 3;
  per_page = pos 10;
  fields = [];
  sort =
      record { field = txt "name"; arrange = txt "asc" }
      ∷ record { field = txt "age"; arrange = txt "desc" }
      ∷ [];
  filters =
      record { key = txt "age"; value = txt "18"; condition = txt "gte" }
      ∷ record { key = txt "age"; value = txt "60"; condition = txt "lt" }
      ∷ [];
  total_items = pos 0;
}
unfolding parse_from_request text_beq clean_architect.Common.Int.is_pos
parse_test = refl
