-- ===== src/SyncClient/Answers.antt =====
-- packages/sync-client/src/index.ts and apps/carpeos-sync-worker/src/index.ts: a pull that is answered
-- with success is answered with the page.
use carpe_os.Common.{◌≡◌, refl, String, false, Option, none, some, List, arith, ok}
use carpe_os.Schema.{SyncPullRequest, SyncPullResult}
use carpe_os.SyncWorker.Store.{AuthorizationRow, Env, Response}
use carpe_os.SyncWorker.Receipts.{authorize, authorize_token}
use carpe_os.SyncWorker.Push.{Host}
use carpe_os.SyncWorker.Pull.{pull_page, pull_authorized, pull_valid, handle_pull}
use carpe_os.SyncClient.Pull.{is_success, read_pull}

authorize-refuses :
    (sha256_hex : String → String) (header : Option String) (client zone : String)
    (rows : List AuthorizationRow) (r : Response)
    → authorize sha256_hex header client zone rows ≡ some r
    → is_success r.status ≡ false
unfolding authorize authorize_token
authorize-refuses sha256_hex none client zone rows r h = ground arith
authorize-refuses sha256_hex (some header) client zone rows r h = ground arith

read_authorized :
    (env : Env) (pull : SyncPullRequest) (o : Option Response)
    → ((r : Response) → o ≡ some r → is_success r.status ≡ false)
    → (q : SyncPullResult) → read_pull (pull_authorized env pull o) ≡ ok q
    → q ≡ pull_page env pull
unfolding read_pull pull_authorized
read_authorized env pull none h q k = ground arith
read_authorized env pull (some r) h q k = let f = h r refl in ground arith

read_valid :
    (host : Host) (env : Env) (header : Option String) (pull : SyncPullRequest) (o : Option String)
    (q : SyncPullResult)
    → read_pull (pull_valid host env header pull o) ≡ ok q
    → q ≡ pull_page env pull
unfolding pull_valid read_pull
read_valid host env header pull (some errors) q k = cc
read_valid host env header pull none q k =
    read_authorized env pull _
      (λ r.
        authorize-refuses (host.sha256_hex) header pull.client_id pull.trust_zone_id
          env.authorizations r)
      q k

pub read_pull-handle_pull :
    (host : Host) (env : Env) (header : Option String) (pull : SyncPullRequest) (q : SyncPullResult)
    → read_pull (handle_pull host env header (ok pull)) ≡ ok q
    → q ≡ pull_page env pull
unfolding handle_pull
read_pull-handle_pull host env header pull q k =
    read_valid host env header pull (host.pull_errors pull) q k
