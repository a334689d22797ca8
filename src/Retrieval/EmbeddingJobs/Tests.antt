-- ===== src/Retrieval/EmbeddingJobs/Tests.antt =====
-- A concrete table of packages/retrieval/src/embedding-jobs.ts.
use carpe_os.Common.{
  ℕ, ◌≡◌, ◌≢◌, refl, ap, String, Bool, true, false, none, some, List, [], ◌∷◌, str_eq, arith,
}
use carpe_os.Common.Text.{◌<>◌}
use carpe_os.Common.Table.{find}
use carpe_os.Retrieval.EmbeddingJobs.Store.{
  Host, EmbeddingJob, EmbeddingRecord, mean, leased, Db, row_of, get_job,
}
use carpe_os.Retrieval.EmbeddingJobs.Runs.{Call, lease, ack, run, run_leased_exclusive}

abbrev hash : String → String
hash s = s <> "#"

abbrev number : String → ℕ
number s = 7

abbrev any_job : EmbeddingJob → Bool
any_job j = true

abbrev any_record : EmbeddingRecord → Bool
any_record r = true

abbrev host : Host
host = record {
  sha256_hex = hash;
  hash_number = number;
  sanitize = hash;
  conforms = any_job;
  record_conforms = any_record;
}

abbrev taken : EmbeddingJob
taken = record {
  job_id = "embjob_1";
  chunk_id = "chunk_1";
  embedding_model = "m";
  embedding_version = "1";
  pooling = mean;
  state = leased;
  attempts = 1;
  available_at = 10;
  lease_id = some "lease_a";
  lease_expires_at = some 1000;
  failure_kind = none;
  retry_after = none;
  quota_reset_at = none;
  last_error = none;
  created_at = 10;
  updated_at = 20;
}

abbrev table : Db
table = record { jobs = row_of taken ∷ []; records = [] }

abbrev vector : EmbeddingRecord
vector = record {
  embedding_id = "emb_1";
  chunk_id = "chunk_1";
  vector_ref = "local_vector:chunk_1";
  vector_digest = "sha256:1";
  created_at = 30;
}

abbrev calls : List Call
calls = lease 5 100 500 "lease_b" ∷ ack "embjob_1" "lease_b" vector 510 ∷ []

other_worker : ◌≢◌ {A = String} "lease_b" "lease_a"
other_worker p = let e : false ≡ true = ap (λ s. str_eq s "lease_a") p in ground (arith, e)

run_leased_exclusive_example : get_job (run host table calls) "embjob_1" ≡ some taken
unfolding get_job find
run_leased_exclusive_example =
    run_leased_exclusive host "embjob_1" "lease_a" 1000 taken table calls refl refl refl (refl, tt)
      refl (omega arith, (other_worker, tt))
