-- ===== src/Staff/Accepted.antt =====
-- What `accept_invitation` and `revoke_invitation` do to the members and invitations, and that an
-- invitation is accepted once.
use lanrouge_nails_bot.Base.{
  ◌⊎◌, ap, find-change, ℕ, ◌≡◌, refl, Bool, true, false, not, Option, none, some, ◌==◌, arith,
  change, sym, ◌∙◌, ◌∷◌, leb, inl, inr, Bool-cases,
}
use lanrouge_nails_bot.Enums.{
  staff_role_enum, ◌is◌, StaffInvitationStatus, staff_invitation_status_enum,
}
use lanrouge_nails_bot.Errors.{Error, ◌>>◌, authorization, raise_if, ok, >>=-eq-ok, ok-injective}
use lanrouge_nails_bot.Text.{same_text, Text}
use lanrouge_nails_bot.Time.{require_aware, Datetime, aware}
use lanrouge_nails_bot.Payments.Records.{
  attempt-raised, done-state, done-value, attempt-done, done, raised,
}
use lanrouge_nails_bot.Staff.Rows.{
  get_by_user_id, sync_business_type, update_invitation, get_or_create_user,
  get_invitation_by_digest, StaffMember, StaffInvitation, Directory,
}
use lanrouge_nails_bot.Staff.Invitations.{
  expire_invitation, is_known, active_invitation, accept_invitation, invited_member,
  bind_invitation,
}
use lanrouge_nails_bot.Staff.Changes.{sync_business_type-rows}

get_or_create_user-rows :
    (d : Directory) (telegram_id new_user_id : ℕ)
    → let (d', u) = get_or_create_user d telegram_id new_user_id in
      (d'.members ≡ d.members) × (d'.invitations ≡ d.invitations)
unfolding get_or_create_user
get_or_create_user-rows d telegram_id new_user_id = ground arith

-- The invitation that was used, by whom and when.
abbrev pub used_by : (user_id current : ℕ) → StaffInvitation → StaffInvitation
used_by user_id current i = record i {
  status = StaffInvitationStatus.used;
  accepted_by_user_id = some user_id;
  used_at = some current;
}

-- A token's invitation was active and not expired; it is used now, and its member was added.
unfoldable pub Accepts : Directory → Text → ℕ → Directory → StaffMember → Type 0
Accepts d digest new_member_id d' m =
    (i : StaffInvitation) × (user_id : ℕ) × (current : ℕ) × (get_invitation_by_digest d digest
      ≡ some i)
    × (i.status is StaffInvitationStatus.active ≡ true)
    × (leb i.expires_at current ≡ false)
    × (m ≡ invited_member i user_id new_member_id)
    × (d'.invitations ≡ change (λ row. row.id == i.id) (used_by user_id current) d.invitations)
    × (d'.members ≡ m ∷ d.members)

bind_invitation-rows :
    (d : Directory) (i : StaffInvitation) (telegram_id new_user_id new_member_id current : ℕ)
    {d' : Directory} {m : StaffMember}
    → bind_invitation d i telegram_id new_user_id new_member_id current ≡ ok (d', m)
    → (user_id : ℕ) × (m ≡ invited_member i user_id new_member_id)
      × (d'.invitations ≡ change (λ row. row.id == i.id) (used_by user_id current) d.invitations)
      × (d'.members ≡ m ∷ d.members)
unfolding bind_invitation
bind_invitation-rows d i telegram_id new_user_id new_member_id current {d'} {m} h =
    let with_user = (get_or_create_user d telegram_id new_user_id).0 in
    let user_id = (get_or_create_user d telegram_id new_user_id).1.id in
    let unknown =
      raise_if (is_known (get_by_user_id with_user i.business_id user_id)) authorization in
    let (_, _, h1) = >>=-eq-ok unknown _ h in
    let member = invited_member i user_id new_member_id in
    let bound : Directory =
      update_invitation i.id (used_by user_id current)
        (record with_user { members = member ∷ with_user.members }) in
    let (synced, syncs, h2) = >>=-eq-ok (sync_business_type bound i.business_id) _ h1 in
    let rows = sync_business_type-rows bound synced i.business_id syncs in
    let kept = get_or_create_user-rows d telegram_id new_user_id in
    let result : (_, member) ≡ (d', m) = ok-injective h2 in
    let it : m ≡ member = ap (λ (x : Directory × StaffMember). x.1) (sym result) in
    let end : d' ≡ _ = ap (λ (x : Directory × StaffMember). x.0) (sym result) in
    (
      user_id,
      it,
      ap (λ (x : Directory). x.invitations) end
          ∙ rows.1
          ∙ ap (change (λ row. row.id == i.id) (used_by user_id current)) kept.1,
      ap (λ (x : Directory). x.members) end
          ∙ rows.0
          ∙ ap (λ ms. member ∷ ms) kept.0
          ∙ ap (λ x. x ∷ d.members) (sym it),
    )

active_invitation-found :
    (found : Option StaffInvitation) {i : StaffInvitation}
    → active_invitation found ≡ ok i
    → (found ≡ some i) × (i.status is StaffInvitationStatus.active ≡ true)
unfolding active_invitation
active_invitation-found none h = ground arith
active_invitation-found (some i) h = ground arith

pub accept_invitation-Accepts :
    (d : Directory) (well_formed : Bool) (digest : Text) (telegram_id new_user_id new_member_id : ℕ)
    (now : Datetime) {d' : Directory} {m : StaffMember}
    → accept_invitation d well_formed digest telegram_id new_user_id new_member_id now ≡ done d' m
    → Accepts d digest new_member_id d' m
unfolding accept_invitation Accepts
accept_invitation-Accepts d well_formed digest telegram_id new_user_id new_member_id now {d'} {m}
      h =
    let (current, _, h1) =
      attempt-done d (raise_if (not well_formed) authorization >> require_aware now) _ h in
    let (i, loads, h2) =
      attempt-done d (active_invitation (get_invitation_by_digest d digest)) _ h1 in
    let (found, active) = active_invitation-found (get_invitation_by_digest d digest) loads in
    elim (Bool-cases (leb i.expires_at current)) [
      | inl late ↦ ground arith
      | inr in_time ↦
          let h3 = rw in_time at h2 in
          let ((bound, member), binds, h4) =
            attempt-done d (bind_invitation d i telegram_id new_user_id new_member_id current) _
              h3 in
          let (user_id, it, invitations, members) =
            bind_invitation-rows d i telegram_id new_user_id new_member_id current binds in
          (
            i,
            user_id,
            current,
            found,
            active,
            in_time,
            sym (done-value h4) ∙ it,
            sym (ap (λ (x : Directory). x.invitations) (done-state h4)) ∙ invitations,
            sym (ap (λ (x : Directory). x.members) (done-state h4))
                ∙ members
                ∙ ap (λ x. x ∷ d.members) (done-value h4),
          )
    ]

-- What a refused call leaves behind.
pub accept_invitation-raised :
    (d : Directory) (well_formed : Bool) (digest : Text) (telegram_id new_user_id new_member_id : ℕ)
    (now : Datetime) {d' : Directory} {e : Error}
    → accept_invitation d well_formed digest telegram_id new_user_id new_member_id now ≡ raised d' e
    → (d' ≡ d) ⊎ ((i : StaffInvitation) × (d' ≡ expire_invitation d i))
unfolding accept_invitation
accept_invitation-raised d well_formed digest telegram_id new_user_id new_member_id now h =
    elim (attempt-raised d (raise_if (not well_formed) authorization >> require_aware now) _ h) [
      | inl same ↦ inl same
      | inr (current, h1) ↦
          elim (attempt-raised d (active_invitation (get_invitation_by_digest d digest)) _ h1) [
            | inl same ↦ inl same
            | inr (i, h2) ↦ elim (Bool-cases (leb i.expires_at current)) [
              | inl late ↦ inr (i, ground arith)
              | inr in_time ↦
                  elim (attempt-raised d
                    (bind_invitation d i telegram_id new_user_id new_member_id current) _
                    (rw in_time at h2)) [ inl same ↦ inl same | inr (bound, h3) ↦ ground arith ]
            ]
          ]
    ]

-- An invitation that was accepted is not accepted again, by whomever and whenever: the call is
-- refused and changes nothing.
pub accept_invitation_once :
    (d : Directory) (digest : Text) (telegram_id another new_user_id new_member_id : ℕ)
    (other_user_id other_member_id : ℕ) (now : Datetime) (later : ℕ) {d' : Directory}
    {m : StaffMember}
    → accept_invitation d true digest telegram_id new_user_id new_member_id now ≡ done d' m
    → accept_invitation d' true digest another other_user_id other_member_id (aware later)
      ≡ raised d' authorization
unfolding accept_invitation Accepts get_invitation_by_digest active_invitation
accept_invitation_once d digest telegram_id another new_user_id new_member_id other_user_id
      other_member_id now later h =
    let (i, user_id, current, found, active, _, _, invitations, _) =
      accept_invitation-Accepts d true digest telegram_id new_user_id new_member_id now h in
    let used =
      find-change (λ (row : StaffInvitation). same_text row.token_digest digest)
        (λ row. row.id == i.id) (used_by user_id current) d.invitations (λ _. refl) found
        (ground arith) in
    rw (invitations, used) refl
