-- ===== src/Gate/Scopes.antt =====
-- middleware/permission.middleware.js: whether the scopes of a key cover a permission. Permissions
-- are the constants of config/permissions.config.js, which are ASCII.
use doc_query.Base.{ℕ, Bool, false, ◌||◌, ◌==◌, List, [], ◌∷◌, ◌++◌, any, if◌then◌else◌}
use mathlib.Core.List.{reverse}
use doc_query.Text.{codes, includes, lower}

-- `s.replace('_', ':')`: the first underscore.
pub replace_first : List ℕ → List ℕ
replace_first [] = []
replace_first (c ∷ s) = if c == 95 then 58 ∷ s else c ∷ replace_first s

-- `s.split(':')`
pub split_colon : List ℕ → List ℕ → List (List ℕ)
split_colon cur [] = cur ∷ []
split_colon cur (c ∷ s) =
    let ended = cur ∷ split_colon [] s in
    let longer = split_colon (cur ++ c ∷ []) s in if c == 58 then ended else longer

-- `const [resource, action] = …`, where a missing part prints as `undefined`.
abbrev pub resource_of : List (List ℕ) → List ℕ
resource_of [] = codes "undefined"
resource_of (r ∷ _) = r

abbrev pub action_of : List (List ℕ) → List ℕ
action_of (r ∷ a ∷ _) = a
action_of _ = codes "undefined"

-- The text without its last unit, where that is an `s`; from the text turned round.
abbrev ends_with_s : List ℕ → Bool
ends_with_s [] = false
ends_with_s (c ∷ s) = c == 115

abbrev pub plural : List ℕ → List ℕ
plural r = if ends_with_s (reverse r) then r else r ++ codes "s"

abbrev without_first : List ℕ → List ℕ
without_first [] = []
without_first (c ∷ s) = s

abbrev pub singular : List ℕ → List ℕ
singular r = if ends_with_s (reverse r) then reverse (without_first (reverse r)) else r

-- The wildcards.
abbrev pub has_wildcard : List (List ℕ) → Bool
has_wildcard scopes =
    includes scopes (codes "*")
    || (includes scopes (codes "admin") || includes scopes (codes "all"))

-- The scope texts under which a permission is granted, in the order of the tests.
pub accepted : List ℕ → List (List ℕ)
unfolding replace_first split_colon
accepted p =
    let colon = replace_first (lower p) in
    let parts = split_colon [] colon in
    let r = resource_of parts in
    let a = action_of parts in
    p
    ∷ colon
    ∷ (plural r ++ (codes ":" ++ a))
    ∷ (singular r ++ (codes ":" ++ a))
    ∷ (plural r ++ codes ":*")
    ∷ (singular r ++ codes ":*")
    ∷ []

-- One round of `requiredPermissions.some(…)`.
unfoldable pub scope_grants : List (List ℕ) → List ℕ → Bool
unfolding accepted
scope_grants scopes p = has_wildcard scopes || any (includes scopes) (accepted p)
