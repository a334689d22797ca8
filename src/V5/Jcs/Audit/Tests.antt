-- ===== src/V5/Jcs/Audit/Tests.antt =====
-- A concrete output.
use carpe_os.Common.{◌≡◌}
use carpe_os.Json.{Value, str, num, object, end, field}
use carpe_os.V5.Jcs.{jcs, audit_free}
use carpe_os.V5.Jcs.Audit.{stamp, audit_free_lem}

abbrev output : Value
output = object (
    field "status" (str "draft") (
      field "proposal_row"
        (object (field "audit_envelope" (str "2026-07-01") (field "seq" (num 0) end))) end))

audit_free_lem_example :
    (jcs (audit_free (stamp (str "2099-01-01") output)) ≡ jcs (audit_free output))
    × (audit_free (audit_free output) ≡ audit_free output)
audit_free_lem_example = audit_free_lem (str "2099-01-01") output
