-- ===== src/Documents/Listing.antt =====
-- The pages of the list of documents (modules/documents/document.service.js, `list`).
use doc_query.Base.{ℕ, ◌≡◌, refl, ◌≤◌, false, Option, List, length, length-take, take, arith}
use doc_query.Base.Table.{Table}
use doc_query.Pagination.{
  Value, Query, parse_pagination_params, parse_pagination_params-limit, build_offset_pagination,
}
use doc_query.Documents.{list_documents}
use doc_query.Documents.Rows.{Status, Document}

length-page : (n : ℕ) (rows : List Document) → n ≤ 100 → length (take n rows) ≤ 100
length-page n rows h = omega (arith, length-take n rows)

module _ (docs : Table Document) (newest_first : List Document → List Document)
    (parse_int : List ℕ → Value) where
  -- The page that a request asks for makes no difference: every page lists the same documents, at
  -- most 100, and says that there is neither a next page nor a previous one.
  pub list_documents-same_page :
      (org : ℕ) (q : Query) (page : List ℕ) (st : Option Status) (rows : List Document)
      → (list_documents docs newest_first parse_int org (record q { page = page }) st rows
          ≡ list_documents docs newest_first parse_int org q st rows)
        × (length (list_documents docs newest_first parse_int org q st rows).documents ≤ 100)
        × ((list_documents docs newest_first parse_int org q st rows).pagination.has_next_page
            ≡ false)
        × ((list_documents docs newest_first parse_int org q st rows).pagination.has_prev_page
            ≡ false)
  unfolding list_documents parse_pagination_params build_offset_pagination
  list_documents-same_page org q page st rows = (
    refl,
    length-page (parse_pagination_params parse_int q).limit _
        (parse_pagination_params-limit parse_int q).1,
    refl,
    refl,
  )
