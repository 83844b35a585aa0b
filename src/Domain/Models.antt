-- ===== src/Domain/Models.antt =====
-- internal/domain/models.go: roles, users, teams and memberships.
use testovoe_bazis.Common.{ℕ, ◌||◌, Bool, Option, ℤ, Text, codes, text_eq, ◌==◌}

-- A time in whole seconds, as the database keeps it.
abbrev pub Time : Type 0
Time = ℕ

-- `type Role string`: any text can be one.
abbrev pub Role : Type 0
Role = Text

abbrev pub role_owner : Role
role_owner = codes "owner"

abbrev pub role_admin : Role
role_admin = codes "admin"

abbrev pub role_member : Role
role_member = codes "member"

unfoldable pub can_invite : Role → Bool
can_invite r = r == role_owner || r == role_admin

unfoldable pub is_owner_or_admin : Role → Bool
is_owner_or_admin r = r == role_owner || r == role_admin

-- `Role.Valid`
unfoldable pub role_valid : Role → Bool
role_valid r = r == role_owner || (r == role_admin || r == role_member)

pub record User : Type 0 where
  pub id : ℤ
  pub email : Text
  pub username : Text
  pub password_hash : Text
  pub created_at : Time

pub record Team : Type 0 where
  pub id : ℤ
  pub name : Text
  pub description : Text
  pub created_by : ℤ
  pub created_at : Time
  pub updated_at : Time

pub record TeamMember : Type 0 where
  pub team_id : ℤ
  pub user_id : ℤ
  pub role : Role
  pub invited_by : Option ℤ
  pub created_at : Time
