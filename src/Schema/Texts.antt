-- ===== src/Schema/Texts.antt =====
-- The stable JSON texts of an event and of an erasure: stableCanonicalJson of
-- packages/capture/src/index.ts at the records of packages/schema/src/index.ts.
use carpe_os.Common.{ℕ, String, Option, none, some}
use carpe_os.Json.{Value, str, num, undefined, object, field, end, stable_json}
use carpe_os.Schema.{
  BlobAlgorithm, aes_256_gcm, xchacha20_poly1305, Digest, EncryptedBlob, ProtectedValueRef,
  EventPayload, protected_content, other_payload, CanonicalEvent, ErasureLedgerRecord,
}

algorithm_text : BlobAlgorithm → String
algorithm_text aes_256_gcm = "aes-256-gcm"
algorithm_text xchacha20_poly1305 = "xchacha20-poly1305"

digest_value : Digest → Value
digest_value d = object (field "algorithm" (str d.algorithm) (field "value" (str d.value) end))

blob_value : EncryptedBlob → Value
unfolding algorithm_text digest_value
blob_value b = object (
    field "algorithm" (str (algorithm_text b.algorithm)) (
      field "nonce_ref" (str b.nonce_ref) (
        field "tag_ref" (str b.tag_ref)
          (field "digest" (digest_value b.digest) (field "size_bytes" (num b.size_bytes) end)))))

ref_value : ProtectedValueRef → Value
unfolding blob_value
ref_value r = object (
    field "ref_type" (str "protected_value") (
      field "protected_value_id" (str r.protected_value_id) (
        field "vault_ref" (str r.vault_ref) (
          field "key_ref" (str r.key_ref)
            (field "encrypted_blob" (blob_value r.encrypted_blob) end)))))

payload_value : EventPayload → Value
unfolding ref_value
payload_value (protected_content r others) = object (field "content_ref" (ref_value r) others)
payload_value (other_payload v) = v

sequence_value : Option ℕ → Value
sequence_value none = undefined
sequence_value (some n) = num n

unfoldable pub event_value : CanonicalEvent → Value
unfolding payload_value sequence_value
event_value e = object (
    field "event_id" (str e.event_id) (
      field "event_type" (str e.event_type) (
        field "trust_zone" (object (field "trust_zone_id" (str e.trust_zone_id) e.zone_others)) (
          field "idempotency_key" (str e.idempotency_key) (
            field "request_fingerprint" (str e.request_fingerprint) (
              field "recorded_time" (object (field "start" (str e.recorded_start) e.time_others)) (
                field "zone_sequence" (sequence_value e.zone_sequence)
                  (field "payload" (payload_value e.payload) e.others))))))))

unfoldable pub erasure_value : ErasureLedgerRecord → Value
unfolding sequence_value
erasure_value x = object (
    field "erasure_id" (str x.erasure_id) (
      field "trust_zone" (object (field "trust_zone_id" (str x.trust_zone_id) x.zone_others)) (
        field "requested_at" (str x.requested_at)
          (field "zone_sequence" (sequence_value x.zone_sequence) x.others))))

unfoldable pub event_json : CanonicalEvent → String
event_json e = stable_json (event_value e)

unfoldable pub erasure_json : ErasureLedgerRecord → String
erasure_json x = stable_json (erasure_value x)
