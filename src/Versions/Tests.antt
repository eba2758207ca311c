-- ===== src/Versions/Tests.antt =====
-- Versions of two documents.
use doc_query.Base.{ℕ, ◌≡◌, refl, List, [], ◌∷◌}
use doc_query.Base.Table.{in_memory}
use doc_query.Text.{codes}
use doc_query.Versions.{numbers, Numbered, create_version, create_all, create_all-Numbered}

abbrev calls : List (ℕ × List ℕ)
calls = (1, codes "a") ∷ (2, codes "b") ∷ (1, codes "c") ∷ (1, codes "a") ∷ []

numbered : numbers 1 (create_all in_memory calls []) ≡ 1 ∷ 2 ∷ 3 ∷ []
unfolding create_version
numbered = refl

create_all-Numbered_example : Numbered (create_all in_memory calls [])
create_all-Numbered_example = create_all-Numbered in_memory calls [] (λ doc. refl)
