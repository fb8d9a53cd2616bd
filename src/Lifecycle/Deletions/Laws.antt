-- ===== src/Lifecycle/Deletions/Laws.antt =====
-- What every sequence of accepted changes of a deletion request does.
use lanrouge_nails_bot.Base.{◌≡◌, Bool, true, false, List, ◌⊎◌, arith}
use lanrouge_nails_bot.Enums.{
  DataDeletionRequestStatus, data_deletion_request_status_enum, contains,
}
use lanrouge_nails_bot.Errors.{ok}
use lanrouge_nails_bot.Lifecycle.Runs.{run, run-gate}
use lanrouge_nails_bot.Lifecycle.Deletions.{ensure_deletion_transition}

-- The statuses in which data has been, is being or may at once be anonymized.
abbrev pub is_authorized : DataDeletionRequestStatus → Bool
is_authorized DataDeletionRequestStatus.approved = true
is_authorized DataDeletionRequestStatus.processing = true
is_authorized DataDeletionRequestStatus.failed = true
is_authorized DataDeletionRequestStatus.completed = true
is_authorized _ = false

approval_gate :
    (s t : DataDeletionRequestStatus)
    → ensure_deletion_transition s t ≡ ok tt
    → is_authorized s ≡ false
    → (t ≡ DataDeletionRequestStatus.approved) ⊎ (is_authorized t ≡ false)
unfolding ensure_deletion_transition
approval_gate s t h out = ground arith

-- A request that is not approved yet is processed, fails or is completed only after a change to
-- `approved` in the same sequence of accepted changes.
pub deletion_needs_approval :
    (s : DataDeletionRequestStatus) (ts : List DataDeletionRequestStatus)
    (u : DataDeletionRequestStatus)
    → run ensure_deletion_transition s ts ≡ ok u
    → is_authorized s ≡ false
    → is_authorized u ≡ true
    → contains DataDeletionRequestStatus.approved ts ≡ true
deletion_needs_approval =
    run-gate ensure_deletion_transition is_authorized DataDeletionRequestStatus.approved
      approval_gate
