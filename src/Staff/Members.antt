-- ===== src/Staff/Members.antt =====
-- app/services/authorization_service.py: `authorize` and the methods on a membership. The actor is
-- loaded again by its Telegram identity; a method that raises leaves nothing behind, since its
-- session is closed without a commit.
use lanrouge_nails_bot.Base.{
  ℕ, Bool, false, not, ◌&&◌, ◌||◌, [], ◌∷◌, Option, none, some, if◌then◌else◌, select,
}
use lanrouge_nails_bot.Enums.{StaffRole, staff_role_enum, ◌is◌, contains}
use lanrouge_nails_bot.Errors.{
  Result, ok, err, authorization, entity_not_found, raise_if, ◌>>=◌, ◌>>◌,
}
use lanrouge_nails_bot.Time.{Datetime, require_aware}
use lanrouge_nails_bot.Staff.Permissions.{staff_permission_enum, StaffPermission}
use lanrouge_nails_bot.Staff.Roles.{StaffContext, grantable_staff_permissions}
use lanrouge_nails_bot.Staff.Rows.{
  StaffChanges, update_member, is_none, add_event, sync_business_type, StaffMember, Directory,
  get_by_id,
}
use lanrouge_nails_bot.Staff.Rules.{
  require_permission, require_manageable_target, require_assignable_role, live_context,
}

unfoldable pub authorize :
    Directory → (business_id telegram_id : ℕ) → Option StaffPermission → Result StaffContext
authorize d business_id telegram_id permission =
    live_context d business_id telegram_id >>= λ context.
    require_permission context permission >> ok context

-- A member that a query found.
abbrev pub found_member : Option StaffMember → Result StaffMember
found_member none = err entity_not_found
found_member (some m) = ok m

-- The live actor, once it has the permission, and the member that it manages.
unfoldable pub manage :
    Directory → (business_id telegram_id staff_member_id : ℕ) → Result (StaffContext × StaffMember)
manage d business_id telegram_id staff_member_id =
    live_context d business_id telegram_id >>= λ actor.
    require_permission actor (some StaffPermission.manage_staff)
    >> found_member (get_by_id d actor.business_id staff_member_id)
    >>= λ target. require_manageable_target actor target >> ok (actor, target)

-- What revoking makes of a membership.
abbrev pub revoked_member : ℕ → StaffMember → StaffMember
revoked_member current m = record m {
  is_active = false;
  is_bookable = false;
  archived_at = some current;
  permission_grants = [];
}

unfoldable pub revoke_member :
    Directory
    → (business_id telegram_id staff_member_id : ℕ) → (now : Datetime)
    → Result (Directory × StaffMember)
unfolding manage
revoke_member d business_id telegram_id staff_member_id now = require_aware now >>= λ current.
    manage d business_id telegram_id staff_member_id >>= λ (actor, target).
    sync_business_type (update_member target.id (revoked_member current) d) actor.business_id
    >>= λ synced. ok (
      add_event
          (record {
            business_id = actor.business_id;
            actor_user_id = some actor.user_id;
            entity_id = target.id;
            changes = StaffChanges.role_revoked target.role;
          })
          synced,
      revoked_member current target,
    )

-- What a new role makes of a membership.
abbrev pub with_role : StaffRole → StaffMember → StaffMember
with_role role m = record m {
  role = role;
  is_bookable =
      if not (role is StaffRole.master) && not m.is_bootstrap_owner then false else m.is_bookable;
}

unfoldable pub change_member_role :
    Directory
    → (business_id telegram_id staff_member_id : ℕ) → StaffRole
    → Result (Directory × StaffMember)
unfolding manage
change_member_role d business_id telegram_id staff_member_id role =
    manage d business_id telegram_id staff_member_id >>= λ (actor, target).
    require_assignable_role actor role
    >> sync_business_type (update_member target.id (with_role role) d) actor.business_id
    >>= λ synced. ok (
      add_event
          (record {
            business_id = actor.business_id;
            actor_user_id = some actor.user_id;
            entity_id = target.id;
            changes = StaffChanges.role_changed target.role role;
          })
          synced,
      with_role role target,
    )

-- `grants | {permission} if enabled else grants - {permission}`
abbrev pub with_grant : StaffPermission → Bool → StaffMember → StaffMember
with_grant permission enabled m = record m {
  permission_grants =
      if enabled
      then (if contains permission m.permission_grants
          then m.permission_grants
          else permission ∷ m.permission_grants)
      else select (λ p. not (p is permission)) m.permission_grants;
}

unfoldable pub set_permission_grant :
    Directory
    → (business_id telegram_id staff_member_id : ℕ) → StaffPermission
    → (enabled : Bool) → Result (Directory × StaffMember)
set_permission_grant d business_id telegram_id staff_member_id permission enabled =
    raise_if (not (contains permission grantable_staff_permissions)) authorization
    >> live_context d business_id telegram_id
    >>= λ actor.
        raise_if (not (actor.role is StaffRole.owner)) authorization
        >> found_member (get_by_id d actor.business_id staff_member_id)
        >>= λ target.
            require_manageable_target actor target
            >> ok (
              add_event
                  (record {
                    business_id = actor.business_id;
                    actor_user_id = some actor.user_id;
                    entity_id = target.id;
                    changes = StaffChanges.permission_grant_changed permission enabled;
                  })
                  (update_member target.id (with_grant permission enabled) d),
              with_grant permission enabled target,
            )

abbrev pub with_bookable : Bool → StaffMember → StaffMember
with_bookable enabled m = record m { is_bookable = enabled }

unfoldable pub set_staff_bookable :
    Directory
    → (business_id telegram_id staff_member_id : ℕ) → (enabled : Bool)
    → Result (Directory × StaffMember)
set_staff_bookable d business_id telegram_id staff_member_id enabled =
    live_context d business_id telegram_id >>= λ actor.
    require_permission actor (some StaffPermission.manage_staff)
    >> found_member (get_by_id d actor.business_id staff_member_id)
    >>= λ m.
        raise_if (not m.is_active || not (is_none m.archived_at)) entity_not_found
        >> raise_if (enabled && not (contains m.role (StaffRole.owner ∷ StaffRole.master ∷ [])))
            authorization
        >> sync_business_type (update_member m.id (with_bookable enabled) d) actor.business_id
        >>= λ synced. ok (
          add_event
              (record {
                business_id = actor.business_id;
                actor_user_id = some actor.user_id;
                entity_id = m.id;
                changes = StaffChanges.bookable_changed enabled;
              })
              synced,
          with_bookable enabled m,
        )
