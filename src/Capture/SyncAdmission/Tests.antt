-- ===== src/Capture/SyncAdmission/Tests.antt =====
-- Concrete events of packages/capture/src/sync-admission.ts.
use carpe_os.Common.{◌≡◌, ◌≢◌, none, some, arith}
use carpe_os.Common.Code.{lowers_to}
use carpe_os.Capture.SyncAdmission.{
  SyncAdmissionInput, remote_thin_promoted_v1, full_log, admit, evaluate_sync_admission,
}
use carpe_os.Capture.SyncAdmission.Thin.{evaluate_sync_admission_lem}

abbrev claim : SyncAdmissionInput
claim = record { event_type = "Claim"; disposition = none; lifecycle_status = some "Active" }

evaluate_sync_admission_lem_example :
    (evaluate_sync_admission claim remote_thin_promoted_v1).decision ≡ admit
unfolding lowers_to
evaluate_sync_admission_lem_example = evaluate_sync_admission_lem claim remote_thin_promoted_v1

is_full : full_log ≢ remote_thin_promoted_v1
is_full p = ground (arith, p)
