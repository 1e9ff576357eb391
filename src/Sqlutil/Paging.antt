-- ===== src/Sqlutil/Paging.antt =====
-- ORDER BY, LIMIT and the operators of the conditions.
use clean_architect.Paginate.{
  filter_less_equal, filter_less, filter_greater_equal, filter_greater, filter_not_equal,
  filter_equal, filter_between, filter_in, is_valid_filter_condition, Sort, filter_like,
}
use clean_architect.Common.{
  ℕ, suc, ◌-◌, ◌*◌, ◌^◌, ◌≤◌, ◌<◌, ◌≡◌, refl, ◌≢◌, ◌↔◌, ◌⊎◌, inl, inr, true, false, List, [], ◌∷◌,
  ◌++◌, map, append_assoc, arith, nat_eq, concat_map, contains, All, Text, txt, text_beq,
  text_beq_iff, text_eq, join, AllIn, trim_right-append,
}
use clean_architect.Common.Int.{ℤ, pos, negsuc, ◌-ℤ◌, ◌*ℤ◌, wrap64, wrap64-pos}
use clean_architect.Sqlutil.{int_argument, sort_text, order_by_query, limit_query, condition_to_sql}

minus_one : (p : ℕ) → pos (suc p) -ℤ pos 1 ≡ pos p
unfolding ◌-ℤ◌
minus_one p = ground arith

times : (a b : ℕ) → pos a *ℤ pos b ≡ pos (a * b)
unfolding ◌*ℤ◌
times a b = refl

limit_parts :
    (page per_page : ℤ)
    → (limit_query page per_page).1
      ≡ int_argument per_page ∷ int_argument (wrap64 (wrap64 (page -ℤ pos 1) *ℤ per_page)) ∷ []
unfolding limit_query
limit_parts page per_page = refl

-- Page `p + 1` of `n` rows each, where the page number and the offset fit in 63 bits: the limit is
-- `n` and the offset is the number of rows on the `p` pages before.
pub limit_query-offset :
    (p n : ℕ)
    → p < 2 ^ 63
    → p * n < 2 ^ 63
    → (limit_query (pos (suc p)) (pos n)).1 ≡ int_argument (pos n) ∷ int_argument (pos (p * n)) ∷ []
limit_query-offset p n h k =
    rw (limit_parts, minus_one p, wrap64-pos p h, times p n, wrap64-pos (p * n) k)

wrap64_high : (n : ℕ) → 2 ^ 63 ≤ n → n < 2 ^ 64 → wrap64 (pos n) ≡ negsuc (2 ^ 64 - 1 - n)
unfolding wrap64
wrap64_high n h k = ground arith

-- Where the offset needs the 64th bit, it wraps around and is negative.
pub limit_query_overflow :
    (p n : ℕ)
    → p < 2 ^ 63
    → 2 ^ 63 ≤ p * n
    → p * n < 2 ^ 64
    → (limit_query (pos (suc p)) (pos n)).1
      ≡ int_argument (pos n) ∷ int_argument (negsuc (2 ^ 64 - 1 - p * n)) ∷ []
limit_query_overflow p n h k l =
    rw (limit_parts, minus_one p, wrap64-pos p h, times p n, wrap64_high (p * n) k l)

-- One sorting as it stands in the clause.
abbrev pub sort_item : Sort → Text
sort_item s = txt " " ++ (s.field ++ (txt " " ++ s.arrange))

-- The direction is one of the two that a request can give.
abbrev pub HasDirection : Sort → Type 0
HasDirection s = (s.arrange ≡ txt "asc") ⊎ (s.arrange ≡ txt "desc")

-- The last byte is no comma.
abbrev EndsPlain : Text → Type 0
EndsPlain t = (u : Text) × (c : ℕ) × (t ≡ u ++ (c ∷ [])) × (contains (txt ",") c ≡ false)

EndsPlain-append : (s t : Text) → EndsPlain t → EndsPlain (s ++ t)
EndsPlain-append s t (u, c, e, h) = (s ++ u, c, rw (e, append_assoc) refl, h)

direction-EndsPlain : (s : Sort) → HasDirection s → EndsPlain s.arrange
unfolding contains
direction-EndsPlain s (inl e) = (txt "as", 99, e, refl)
direction-EndsPlain s (inr e) = (txt "des", 99, e, refl)

sort_item-EndsPlain : (s : Sort) → HasDirection s → EndsPlain (sort_item s)
sort_item-EndsPlain s h = EndsPlain-append (txt " ") _ (
    EndsPlain-append s.field (txt " " ++ s.arrange)
      (EndsPlain-append (txt " ") s.arrange (direction-EndsPlain s h)))

join-EndsPlain :
    (s : Sort) (sorts : List Sort)
    → All HasDirection (s ∷ sorts)
    → EndsPlain (join (txt ",") (map sort_item (s ∷ sorts)))
unfolding join
join-EndsPlain s [] h = sort_item-EndsPlain s h.0
join-EndsPlain s (r ∷ sorts) h = EndsPlain-append (sort_item s) _ (
    EndsPlain-append (txt ",") (join (txt ",") (map sort_item (r ∷ sorts)))
      (join-EndsPlain r sorts h.1))

sort_text-item : (s : Sort) (t : Text) → sort_text s ++ t ≡ sort_item s ++ (txt "," ++ t)
sort_text-item s t = simp append_assoc

sorts-eq-join :
    (s : Sort) (sorts : List Sort)
    → concat_map sort_text (s ∷ sorts) ≡ join (txt ",") (map sort_item (s ∷ sorts)) ++ txt ","
unfolding join
sorts-eq-join s [] = sort_text-item s []
sorts-eq-join s (r ∷ sorts) =
    rw (sorts-eq-join r sorts, sort_text-item s _, append_assoc (sort_item s) _ (txt ","))

comma_cut : AllIn (txt ",") (txt ",")
unfolding contains
comma_cut = (refl, tt)

-- For a non-empty list of sortings in the directions that a request can give, the clause is
-- `ORDER BY` and the sortings separated by commas: trimming takes the last comma and nothing more.
pub order_by_query-join :
    (s : Sort) (sorts : List Sort)
    → All HasDirection (s ∷ sorts)
    → order_by_query (s ∷ sorts) ≡ txt "ORDER BY" ++ join (txt ",") (map sort_item (s ∷ sorts))
unfolding order_by_query
order_by_query-join s sorts h =
    let (u, c, e, plain) = join-EndsPlain s sorts h in
    rw (sorts-eq-join s sorts, e, append_assoc)
      (trim_right-append (txt ",") (txt "ORDER BY" ++ u) c (txt ",") plain comma_cut)

no_operator :
    (c : Text)
    → is_valid_filter_condition c ≡ true
    → c ≢ filter_in
    → c ≢ filter_between
    → condition_to_sql c ≡ []
    → c ≡ filter_like
unfolding condition_to_sql is_valid_filter_condition
no_operator c valid not_in not_between e = ground (
  arith,
  text_beq_iff c filter_equal,
  text_beq_iff filter_equal c,
  text_beq_iff c filter_not_equal,
  text_beq_iff filter_not_equal c,
  text_beq_iff c filter_greater,
  text_beq_iff filter_greater c,
  text_beq_iff c filter_greater_equal,
  text_beq_iff filter_greater_equal c,
  text_beq_iff c filter_less,
  text_beq_iff filter_less c,
  text_beq_iff c filter_less_equal,
  text_beq_iff filter_less_equal c,
  text_beq_iff filter_in c,
  text_beq_iff filter_between c,
  text_beq_iff filter_like c,
)

-- Of the conditions that a request can give, and that stand for an operator (neither `in` nor
-- `between`), `like` and no other is written as no operator at all.
pub condition_to_sql-eq-nil_iff :
    (c : Text)
    → is_valid_filter_condition c ≡ true
    → c ≢ filter_in
    → c ≢ filter_between
    → (condition_to_sql c ≡ []) ↔ (c ≡ filter_like)
unfolding condition_to_sql is_valid_filter_condition text_beq
condition_to_sql-eq-nil_iff c valid not_in not_between =
    (no_operator c valid not_in not_between, λ e. rw e refl)
