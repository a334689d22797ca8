-- ===== src/Capture/RunLedger.antt =====
-- packages/capture/src/run-ledger.ts: the ledger of long runs. `sort()` compares UTF-16 code units;
-- the order of code points that is used here differs from it only above U+FFFF.
pub mod Sets
pub mod Links
mod Tests
use carpe_os.Common.{
  ℕ, String, Bool, true, false, not, Option, none, some, List, [], ◌∷◌, ◌++◌, keep, str_eq, or_else,
  if◌then◌else◌,
}
use carpe_os.Common.Text.{◌<>◌, text_lt}
use carpe_os.Common.Code.{text_take}
use carpe_os.Json.{Value, null, str, object, field, end, stringify}
use carpe_os.V5.Jcs.{sorted_value}

-- `new Set(values)`, each value at its first place
unfoldable pub distinct : List String → List String
distinct [] = []
distinct (x ∷ xs) = x ∷ keep (λ y. not (str_eq y x)) (distinct xs)

unfoldable pub insert_text : String → List String → List String
insert_text x [] = x ∷ []
insert_text x (y ∷ ys) = let rest = insert_text x ys in if text_lt y x then y ∷ rest else x ∷ y ∷ ys

unfoldable pub sort_texts : List String → List String
sort_texts [] = []
sort_texts (x ∷ xs) = insert_text x (sort_texts xs)

unfoldable pub unique_sorted : List String → List String
unique_sorted values = sort_texts (distinct values)

pub data RunLedgerStatus : Type 0 where
  running completed failed cancelled : RunLedgerStatus

pub record RunLedgerEntry : Type 0 where
  pub run_id : String
  pub agent_id : Option String
  pub round : ℕ
  pub started_at : String
  pub ended_at : Option String
  pub event_ids : List String
  pub artifact_ids : List String
  pub status : RunLedgerStatus
  pub subject_ref : String

-- `round` is a natural number here, so the check of it has no case
pub record BuildRunLedgerEntryInput : Type 0 where
  pub run_id : Option String
  pub agent_id : Option String
  pub round : ℕ
  pub started_at : String
  pub ended_at : Option String
  pub event_ids : Option (List String)
  pub artifact_ids : Option (List String)
  pub status : Option RunLedgerStatus
  pub subject_ref : String

abbrev text_or_null : Option String → Value
text_or_null none = null
text_or_null (some s) = str s

module _ (sha256_hex : String → String) where
  abbrev pub derived_run_id : BuildRunLedgerEntryInput → String
  derived_run_id i =
      "run_"
      <> text_take 24 (
          sha256_hex (
            stringify (
              sorted_value (
                object (
                  field "subject_ref" (str i.subject_ref) (
                    field "started_at" (str i.started_at)
                      (field "agent_id" (text_or_null i.agent_id) end)))))))

  unfoldable pub build_run_ledger_entry : BuildRunLedgerEntryInput → RunLedgerEntry
  build_run_ledger_entry i = record {
    run_id = or_else i.run_id (derived_run_id i);
    agent_id = i.agent_id;
    round = i.round;
    started_at = i.started_at;
    ended_at = i.ended_at;
    event_ids = unique_sorted (or_else i.event_ids []);
    artifact_ids = unique_sorted (or_else i.artifact_ids []);
    status = or_else i.status running;
    subject_ref = i.subject_ref;
  }

unfoldable pub link_events_to_run : RunLedgerEntry → List String → RunLedgerEntry
link_events_to_run e ids = record e { event_ids = unique_sorted (e.event_ids ++ ids) }

-- the status is one of the three ends, `completed` where none is given
unfoldable pub complete_run_ledger_entry :
    RunLedgerEntry → (ended_at : String) → Option RunLedgerStatus → RunLedgerEntry
complete_run_ledger_entry e ended_at status = record e {
  ended_at = some ended_at;
  status = or_else status completed;
}
