-- ===== src/Roles.antt =====
-- The roles of an organization: `enum OrganizationRole` of prisma/schema.prisma.
use doc_query.Base.{Bool, true, false, ◌≡◌, arith}

pub data Role : Type 0 where
  owner admin member viewer : Role

-- `role === 'OWNER'`
abbrev pub is_owner : Role → Bool
is_owner owner = true
is_owner _ = false

abbrev pub is_viewer : Role → Bool
is_viewer viewer = true
is_viewer _ = false

-- `a === b` on roles.
abbrev pub same_role : Role → Role → Bool
same_role owner owner = true
same_role admin admin = true
same_role member member = true
same_role viewer viewer = true
same_role _ _ = false

pub eq_of_same_role : (a b : Role) → same_role a b ≡ true → a ≡ b
eq_of_same_role a b h = ground arith
