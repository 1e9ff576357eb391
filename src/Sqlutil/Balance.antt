-- ===== src/Sqlutil/Balance.antt =====
-- As many placeholders as arguments: the whole query.
use clean_architect.Common.Int.{ℤ}
use clean_architect.Paginate.{Sort, Pagination}
use clean_architect.Sqlutil.{
  select_query, where_query, sort_text, order_by_query, limit_query, build_pagination_query,
}
use clean_architect.Sqlutil.Placeholders.{
  marks, IsMarkFree, IsBalanced, AreMarkFree, where_query-IsBalanced,
}
use clean_architect.Common.{
  ◌+◌, ◌≤◌, ◌≡◌, refl, List, [], ◌∷◌, ◌++◌, arith, nat_eq, length, length-append, concat_map, All,
  Text, txt, text_eq, join, trim_right, occurrences, occurrences-append, Dict,
}

marks-trim_right : (cut s : Text) → marks (trim_right cut s) ≤ marks s
unfolding trim_right occurrences
marks-trim_right cut [] = omega arith
marks-trim_right cut (c ∷ s) = ground (arith, marks-trim_right cut s)

marks-join_fields :
    (fields : List Text) → All IsMarkFree fields → IsMarkFree (join (txt ",") fields)
unfolding join occurrences
marks-join_fields [] h = refl
marks-join_fields (f ∷ []) h = h.0
marks-join_fields (f ∷ g ∷ fields) h = omega (
  arith,
  occurrences-append 63 f (txt "," ++ join (txt ",") (g ∷ fields)),
  h.0,
  marks-join_fields (g ∷ fields) h.1,
)

abbrev pub IsMarkFreeSort : Sort → Type 0
IsMarkFreeSort s = IsMarkFree s.field × IsMarkFree s.arrange

marks-sort_text : (s : Sort) → IsMarkFreeSort s → IsMarkFree (sort_text s)
unfolding occurrences
marks-sort_text s h = omega (
  arith,
  h.0,
  h.1,
  occurrences-append 63 s.field (txt " " ++ (s.arrange ++ txt ",")),
  occurrences-append 63 s.arrange (txt ","),
)

marks-sorts :
    (sorts : List Sort) → All IsMarkFreeSort sorts → IsMarkFree (concat_map sort_text sorts)
unfolding occurrences
marks-sorts [] h = refl
marks-sorts (s ∷ sorts) h = omega (
  arith,
  occurrences-append 63 (sort_text s) (concat_map sort_text sorts),
  marks-sort_text s h.0,
  marks-sorts sorts h.1,
)

marks-order_by : (sorts : List Sort) → All IsMarkFreeSort sorts → IsMarkFree (order_by_query sorts)
unfolding order_by_query occurrences
marks-order_by [] h = refl
marks-order_by (s ∷ sorts) h = omega (
  arith,
  marks-trim_right (txt ",") (txt "ORDER BY" ++ concat_map sort_text (s ∷ sorts)),
  marks-sorts (s ∷ sorts) h,
)

marks-select :
    (table : Text) (fields : List Text)
    → IsMarkFree table
    → All IsMarkFree fields
    → IsMarkFree (select_query table fields)
unfolding select_query occurrences
marks-select table [] h k = omega (arith, h)
marks-select table (f ∷ fields) h k = omega (
  arith,
  h,
  occurrences-append 63 (join (txt ",") (f ∷ fields)) (txt " FROM " ++ table),
  marks-join_fields (f ∷ fields) k,
)

limit-IsBalanced : (page per_page : ℤ) → IsBalanced (limit_query page per_page)
unfolding limit_query occurrences
limit-IsBalanced page per_page = refl

-- The four parts of the query, joined by newlines.
marks_of_parts :
    (a b c d : Text)
    → marks (a ++ (txt "\n" ++ (b ++ (txt "\n" ++ (c ++ (txt "\n" ++ d))))))
      ≡ marks a + (marks b + (marks c + marks d))
unfolding occurrences
marks_of_parts a b c d = omega (
  arith,
  occurrences-append 63 a (txt "\n" ++ (b ++ (txt "\n" ++ (c ++ (txt "\n" ++ d))))),
  occurrences-append 63 b (txt "\n" ++ (c ++ (txt "\n" ++ d))),
  occurrences-append 63 c (txt "\n" ++ d),
)

build_parts :
    (table : Text) (p : Pagination) (columns : Dict Text Text)
    → build_pagination_query table p columns ≡ (
      select_query table p.fields
          ++ (txt "\n"
              ++ ((where_query p.filters columns).0
                  ++ (txt "\n"
                      ++ (order_by_query p.sort
                          ++ (txt "\n" ++ (limit_query p.page p.per_page).0))))),
      (where_query p.filters columns).1 ++ (limit_query p.page p.per_page).1,
    )
unfolding build_pagination_query
build_parts table p columns = refl

-- The query that is built has exactly as many `?` as there are arguments, whatever the filters'
-- keys, values and conditions and whatever the page, if the table, the selected fields, the
-- sortings and the queryable columns hold no `?`.
pub build_pagination_query-balanced :
    (table : Text) (p : Pagination) (columns : Dict Text Text)
    → IsMarkFree table
    → All IsMarkFree p.fields
    → All IsMarkFreeSort p.sort
    → AreMarkFree columns
    → marks (build_pagination_query table p columns).0
      ≡ length (build_pagination_query table p columns).1
build_pagination_query-balanced table p columns ht hf hs hc = rw (build_parts table p columns) (
    omega (
      arith,
      marks_of_parts (select_query table p.fields) (where_query p.filters columns).0
          (order_by_query p.sort) (limit_query p.page p.per_page).0,
      marks-select table p.fields ht hf,
      where_query-IsBalanced p.filters columns hc,
      marks-order_by p.sort hs,
      limit-IsBalanced p.page p.per_page,
      length-append (where_query p.filters columns).1 (limit_query p.page p.per_page).1,
    ))
