-- ===== src/Agentic/Jobs/Query.antt =====
-- packages/agentic/src/jobs.ts: the SELECT statements, counting and listing.
use carpe_os.Common.{
  ℕ, ◌+◌, String, Bool, true, false, ◌&&◌, ◌||◌, not, Option, none, some, List, [], ◌∷◌, map,
  str_eq, leb, ltb, ◌==◌, if◌then◌else◌, or_else, take, keep, Fallible, ok, guard, ◌>>◌,
}
use carpe_os.Common.Text.{text_lt}
use carpe_os.Agentic.Types.{JobState, JobState-discrete, AgenticJob, Instant, pending, leased}
use carpe_os.Agentic.Jobs.Store.{JobRow, Db}

-- ORDER BY time ASC, job_id ASC: whether `a` comes before `b`
abbrev pub before : ℕ → String → ℕ → String → Bool
before t id u jd = ltb t u || (t == u && text_lt id jd)

module _ (time : JobRow → Instant) where
  unfoldable pub insert_by : JobRow → List JobRow → List JobRow
  insert_by r [] = r ∷ []
  insert_by r (q ∷ qs) =
      if before (time q) q.job_id (time r) r.job_id then q ∷ insert_by r qs else r ∷ q ∷ qs

  unfoldable pub order_by : List JobRow → List JobRow
  unfolding insert_by
  order_by [] = []
  order_by (r ∷ rs) = insert_by r (order_by rs)

  -- SELECT … WHERE p ORDER BY time, job_id LIMIT n
  unfoldable pub select_rows : (JobRow → Bool) → ℕ → Db → List JobRow
  unfolding order_by
  select_rows p limit db = take limit (order_by (keep p db))

abbrev pub available_time : JobRow → Instant
available_time r = r.available_at

abbrev pub updated_time : JobRow → Instant
updated_time r = r.updated_at

abbrev pub is_pending : JobState → Bool
is_pending pending = true
is_pending _ = false

abbrev pub is_leased : JobState → Bool
is_leased leased = true
is_leased _ = false

-- TERMINAL, and `isTerminalAgenticState`
abbrev pub is_terminal_agentic_state : JobState → Bool
is_terminal_agentic_state pending = false
is_terminal_agentic_state leased = false
is_terminal_agentic_state _ = true

-- `t <= now` in SQL and in the code, false where `t` is NULL
abbrev pub due : Option Instant → Instant → Bool
due none now = false
due (some t) now = leb t now

-- `trust_zone_id = ?`, where a zone is asked for
abbrev pub in_zone : Option String → JobRow → Bool
in_zone none r = true
in_zone (some z) r = str_eq r.trust_zone_id z

-- the condition of the statement of `leaseAgenticJobs`
unfoldable pub wants_lease : Option String → Instant → JobRow → Bool
wants_lease zone now r =
    in_zone zone r
    && (is_pending r.state || is_leased r.state)
    && leb r.available_at now
    && (not (is_leased r.state) || due r.lease_expires_at now)

-- the condition of the statement of `reclaimExpiredAgenticJobs`
unfoldable pub wants_reclaim : Option String → Instant → JobRow → Bool
wants_reclaim zone now r =
    in_zone zone r
    && (is_leased r.state && due r.lease_expires_at now
        || is_pending r.state && leb r.job_json.max_attempts r.job_json.attempt)

pub record StatusCounts : Type 0 where
  pub pending : ℕ
  pub leased : ℕ
  pub succeeded : ℕ
  pub blocked : ℕ
  pub dead : ℕ

abbrev count_one : JobState → StatusCounts → StatusCounts
count_one JobState.pending c = record c { pending = c.pending + 1 }
count_one JobState.leased c = record c { leased = c.leased + 1 }
count_one JobState.succeeded c = record c { succeeded = c.succeeded + 1 }
count_one JobState.blocked c = record c { blocked = c.blocked + 1 }
count_one JobState.dead c = record c { dead = c.dead + 1 }

-- SELECT state, COUNT(*) … GROUP BY state, into the record of counts that starts at 0
unfoldable pub count_agentic_jobs : Option String → Db → StatusCounts
count_agentic_jobs _ [] = record { pending = 0; leased = 0; succeeded = 0; blocked = 0; dead = 0 }
count_agentic_jobs zone (r ∷ rs) =
    let rest = count_agentic_jobs zone rs in if in_zone zone r then count_one r.state rest else rest

abbrev same_state : JobState → JobState → Bool
same_state a b = elim (JobState-discrete a b) [ yes _ ↦ true | no _ ↦ false ]

abbrev pub has_state : Option JobState → JobRow → Bool
has_state none r = true
has_state (some s) r = same_state r.state s

unfoldable pub list_agentic_jobs :
    Option String → Option JobState → Option ℕ → Db → Fallible (List AgenticJob)
unfolding select_rows
list_agentic_jobs zone state limit db = do
  guard (leb 1 (or_else limit 50)) "list limit must be a positive integer"
  ok (
      map (λ r. r.job_json)
        (select_rows available_time (λ r. in_zone zone r && has_state state r) (or_else limit 50)
          db))
