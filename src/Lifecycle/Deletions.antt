-- ===== src/Lifecycle/Deletions.antt =====
-- app/domain/privacy.py: the workflow of a request to delete personal data.
use lanrouge_nails_bot.Base.{not, List, [], ◌∷◌}
use lanrouge_nails_bot.Enums.{
  DataDeletionRequestStatus, data_deletion_request_status_enum, contains,
}
use lanrouge_nails_bot.Errors.{Result, privacy_state, raise_if}
pub mod Laws

abbrev pub deletion_transitions : DataDeletionRequestStatus → List DataDeletionRequestStatus
deletion_transitions DataDeletionRequestStatus.requested =
    DataDeletionRequestStatus.in_review ∷ DataDeletionRequestStatus.cancelled ∷ []
deletion_transitions DataDeletionRequestStatus.in_review =
    DataDeletionRequestStatus.approved ∷ DataDeletionRequestStatus.rejected
    ∷ DataDeletionRequestStatus.cancelled ∷ []
deletion_transitions DataDeletionRequestStatus.approved =
    DataDeletionRequestStatus.in_review ∷ DataDeletionRequestStatus.processing
    ∷ DataDeletionRequestStatus.failed ∷ DataDeletionRequestStatus.completed ∷ []
deletion_transitions DataDeletionRequestStatus.processing =
    DataDeletionRequestStatus.approved ∷ DataDeletionRequestStatus.completed
    ∷ DataDeletionRequestStatus.failed ∷ []
deletion_transitions DataDeletionRequestStatus.failed = DataDeletionRequestStatus.approved ∷ []
deletion_transitions DataDeletionRequestStatus.rejected = []
deletion_transitions DataDeletionRequestStatus.completed = []
deletion_transitions DataDeletionRequestStatus.cancelled = []

-- No replay of the current status is accepted here.
unfoldable pub ensure_deletion_transition :
    DataDeletionRequestStatus → DataDeletionRequestStatus → Result Unit
ensure_deletion_transition current target =
    raise_if (not (contains target (deletion_transitions current))) privacy_state
