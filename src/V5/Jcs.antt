-- ===== src/V5/Jcs.antt =====
-- packages/v5/src/jcs.ts: canonical JSON text, and removing audit members. A value that the code
-- rejects, as `undefined`, is no member of the values that are digested here.
pub mod Audit
use carpe_os.Common.{String, Bool, if◌then◌else◌, str_eq}
use carpe_os.Common.Text.{◌<>◌}
use carpe_os.Json.{
  Value, Elements, Members, undefined, null, bool, num, str, array, object, no_items, item, end,
  field, insert_field, stringify,
}

-- every object with its keys in `sort()` order
unfoldable mutual
  unfolding insert_field

  pub sorted_value : Value → Value
  sorted_value (array xs) = array (sorted_items xs)
  sorted_value (object fs) = object (sorted_fields fs)
  sorted_value v = v

  pub sorted_items : Elements → Elements
  sorted_items no_items = no_items
  sorted_items (item x xs) = item (sorted_value x) (sorted_items xs)

  pub sorted_fields : Members → Members
  sorted_fields end = end
  sorted_fields (field k v fs) = insert_field k (sorted_value v) (sorted_fields fs)

unfoldable pub jcs : Value → String
unfolding sorted_value stringify
jcs v = stringify (sorted_value v)

module _ (sha256_hex : String → String) where
  unfoldable pub sha256_jcs : Value → String
  sha256_jcs v = sha256_hex (jcs v)

  unfoldable pub digest_sha256 : Value → String
  unfolding sha256_jcs
  digest_sha256 v = "sha256:" <> sha256_jcs v

-- one member of `auditFree`'s loop
unfoldable pub keep_field : String → Value → Members → Members
keep_field k v fs = if str_eq k "audit_envelope" then fs else field k v fs

unfoldable mutual
  unfolding keep_field

  pub audit_free : Value → Value
  audit_free (array xs) = array (audit_free_items xs)
  audit_free (object fs) = object (audit_free_fields fs)
  audit_free v = v

  pub audit_free_items : Elements → Elements
  audit_free_items no_items = no_items
  audit_free_items (item x xs) = item (audit_free x) (audit_free_items xs)

  pub audit_free_fields : Members → Members
  audit_free_fields end = end
  audit_free_fields (field k v fs) = keep_field k (audit_free v) (audit_free_fields fs)
