-- ===== src/Pagination/Tests.antt =====
-- Pages of a list of 45 records, with the length of a text in place of
-- the number that it reads as.
use doc_query.Base.{ℕ, ◌≡◌, refl, List, [], ◌∷◌, length}
use doc_query.Text.{codes}
use doc_query.Pagination.{Value, num, nan, Query, clamp_limit, clamp_page, parse_pagination_params}

abbrev size : List ℕ → Value
size [] = nan
size (c ∷ s) = num (length (c ∷ s))

abbrev query : Query
query = record { limit = codes "xxx"; page = codes "xx"; cursor = [] }

defaults :
    ((parse_pagination_params size (record query { limit = [] })).limit ≡ 20)
    × ((parse_pagination_params size query).limit ≡ 3)
    × ((parse_pagination_params size query).page ≡ num 2)
unfolding parse_pagination_params clamp_limit clamp_page
defaults = (refl, refl, refl)
