-- ===== src/Staff/Rules.antt =====
-- app/services/authorization_service.py: the context of a live actor, and what it may manage.
use lanrouge_nails_bot.Base.{ℕ, not, ◌&&◌, ◌||◌, [], ◌∷◌, Option, none, some, ◌==◌, if◌then◌else◌}
use lanrouge_nails_bot.Enums.{StaffRole, staff_role_enum, ◌is◌, contains}
use lanrouge_nails_bot.Errors.{Result, ok, err, authorization, raise_if}
use lanrouge_nails_bot.Staff.Permissions.{StaffPermission}
use lanrouge_nails_bot.Staff.Roles.{StaffContext, has_permission, can_assign_role}
use lanrouge_nails_bot.Staff.Rows.{User, StaffMember, Directory, get_by_telegram_id}

-- `_context`
unfoldable pub context_of : StaffMember → User → StaffContext
context_of m u = record {
  business_id = m.business_id;
  staff_member_id = m.id;
  user_id = u.id;
  telegram_id = u.telegram_id;
  display_name = m.display_name;
  role = m.role;
  is_bookable = m.is_bookable;
  is_bootstrap_owner = m.is_bootstrap_owner;
  permission_grants = m.permission_grants;
}

-- `_live_context`
unfoldable pub live_context : Directory → (business_id telegram_id : ℕ) → Result StaffContext
unfolding context_of
live_context d business_id telegram_id = bound (get_by_telegram_id d business_id telegram_id)
  where
    bound : Option (StaffMember × User) → Result StaffContext
    bound none = err authorization
    bound (some (m, u)) = ok (context_of m u)

-- `_require_permission`
unfoldable pub require_permission : StaffContext → Option StaffPermission → Result Unit
require_permission actor none = ok tt
require_permission actor (some permission) =
    raise_if (not (has_permission actor permission)) authorization

-- `_require_assignable_role`
unfoldable pub require_assignable_role : StaffContext → StaffRole → Result Unit
unfolding can_assign_role
require_assignable_role actor target_role =
    raise_if (not (can_assign_role actor.role target_role actor.is_bootstrap_owner)) authorization

-- `_require_manageable_target`
unfoldable pub require_manageable_target : StaffContext → StaffMember → Result Unit
require_manageable_target actor target =
    if target.id == actor.staff_member_id || target.is_bootstrap_owner
    then err authorization
    else if target.role is StaffRole.owner
    then raise_if (not actor.is_bootstrap_owner) authorization
    else if actor.role is StaffRole.owner
    then ok tt
    else raise_if
        (not (
          actor.role is StaffRole.manager
          && contains target.role (StaffRole.master ∷ StaffRole.receptionist ∷ [])))
        authorization
