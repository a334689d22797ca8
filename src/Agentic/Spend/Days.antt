-- ===== src/Agentic/Spend/Days.antt =====
-- The spend of a day over any sequence of calls of `addDaySpend` (packages/agentic/src/spend.ts).
use carpe_os.Common.{
  ℕ, ◌+◌, ◌≡◌, refl, String, true, some, List, [], ◌∷◌, str_eq, if◌then◌else◌, arith, eq_iff,
  Bool-cases, inl, inr, All, ◌||◌,
}
use carpe_os.Common.Table.{find}
use carpe_os.Agentic.Spend.{
  Amounts, DaySpendRow, Delta, Caps, utc_day_key, row_day, upsert_day, load_day_spend, add_to_day,
  add_day_spend, over, day_spend_exceeded, not_negative, pos, negsuc,
}

find-upsert_day :
    {A : Type 0} (r : DaySpendRow A) (rows : List (DaySpendRow A)) (day : String)
    → find row_day day (upsert_day r rows)
      ≡ (if str_eq r.day_utc day then some r else find row_day day rows)
unfolding find upsert_day
find-upsert_day r [] day = refl
find-upsert_day r (q ∷ rows) day = ground (
  arith,
  find-upsert_day r rows day,
  eq_iff q.day_utc r.day_utc,
  eq_iff r.day_utc day,
  eq_iff q.day_utc day,
)

-- a call of `addDaySpend`
pub record Add (A : Type 0) : Type 0 where
  pub delta : Delta A
  pub now : String

module _ (usd : Amounts) where
  unfoldable pub after_adds :
      List (DaySpendRow usd.Amount) → List (Add usd.Amount) → List (DaySpendRow usd.Amount)
  after_adds db [] = db
  after_adds db (a ∷ adds) =
      let (row, db') = add_day_spend usd db a.delta a.now in after_adds db' adds

  -- the calls that one addition counts for: the whole part, and none where it is negative
  abbrev pub counted : Delta usd.Amount → ℕ
  counted d = elim (usd.floor d.calls) [ pos n ↦ n | negsuc n ↦ 0 ]

  -- the calls that were added to a day
  unfoldable pub calls_on : String → List (Add usd.Amount) → ℕ
  calls_on day [] = 0
  calls_on day (a ∷ adds) =
      (if str_eq (utc_day_key a.now) day then counted a.delta else 0) + calls_on day adds

  -- what a day's row is after a call
  load-add :
      (db : List (DaySpendRow usd.Amount)) (a : Add usd.Amount) (day : String)
      → let (row, db') = add_day_spend usd db a.delta a.now in
        let old = load_day_spend usd db day in
        let same = str_eq (utc_day_key a.now) day in
        ((load_day_spend usd db' day).calls ≡ old.calls + (if same then counted a.delta else 0))
        × ((load_day_spend usd db' day).spend_usd ≡ (
            if same
            then usd.plus old.spend_usd (not_negative usd a.delta.spend_usd)
            else old.spend_usd))
  unfolding add_day_spend load_day_spend
  load-add db a day = elim (Bool-cases (str_eq (utc_day_key a.now) day)) [
    | inl here ↦
        let p = (eq_iff (utc_day_key a.now) day).0 here in
        rw (find-upsert_day (add_day_spend usd db a.delta a.now).0 db day, here) (rw p (refl, refl))
    | inr other ↦
        rw (find-upsert_day (add_day_spend usd db a.delta a.now).0 db day, other)
          (omega arith, refl)
  ]

  -- a number, not NaN
  abbrev pub IsNumber : Delta usd.Amount → Type 0
  IsNumber d =
      (usd.at_least d.spend_usd usd.zero_usd || usd.at_least usd.zero_usd d.spend_usd) ≡ true

  not_negative-least :
      (d : Delta usd.Amount)
      → IsNumber d
      → usd.at_least (not_negative usd d.spend_usd) usd.zero_usd ≡ true
  not_negative-least d n = ground (arith, n, usd.zero-least)

  over-add :
      (row : DaySpendRow usd.Amount) (delta : Delta usd.Amount) (caps : Caps usd.Amount)
      → IsNumber delta
      → usd.at_least caps.spend_cap_usd usd.zero_usd ≡ true
      → over usd row caps ≡ true
      → over usd (add_to_day usd row delta) caps ≡ true
  over-add row delta caps n c h =
      elim (Bool-cases (usd.at_least row.spend_usd caps.spend_cap_usd)) [
        | inl spend ↦
            rw
              (usd.plus-least row.spend_usd (not_negative usd delta.spend_usd) caps.spend_cap_usd
                spend (not_negative-least delta n) c)
              refl
        | inr calls ↦ ground (arith, h, calls)
      ]

  over-add_call :
      (db : List (DaySpendRow usd.Amount)) (a : Add usd.Amount) (caps : Caps usd.Amount)
      (day : String)
      → IsNumber a.delta
      → usd.at_least caps.spend_cap_usd usd.zero_usd ≡ true
      → over usd (load_day_spend usd db day) caps ≡ true
      → over usd (load_day_spend usd (add_day_spend usd db a.delta a.now).1 day) caps ≡ true
  over-add_call db a caps day n c h = elim (Bool-cases (str_eq (utc_day_key a.now) day)) [
    | inl here ↦
        let (calls, spend) = load-add db a day in
        rw (spend, calls, here) (over-add (load_day_spend usd db day) a.delta caps n c h)
    | inr other ↦
        let (calls, spend) = load-add db a day in rw (spend, calls, other) (ground (arith, h))
  ]

  -- A day's calls, after any sequence of calls of `addDaySpend`, are what they were plus what was
  -- added at times of that day, each addition rounded down and a negative one counted as none: no
  -- call is lost, none is taken back, and other days do not count.
  pub after_adds-calls :
      (db : List (DaySpendRow usd.Amount)) (adds : List (Add usd.Amount)) (day : String)
      → (load_day_spend usd (after_adds db adds) day).calls
        ≡ (load_day_spend usd db day).calls + calls_on day adds
  unfolding after_adds calls_on
  after_adds-calls db [] day = omega arith
  after_adds-calls db (a ∷ adds) day = omega (
    arith,
    after_adds-calls (add_day_spend usd db a.delta a.now).1 adds day,
    (load-add db a day).0,
  )

  -- Once the caps of a day are exceeded, the same caps are exceeded at every time of that day,
  -- whatever is added later, on that day or on others, negative amounts and calls included, if the
  -- cap of dollars is not negative and no amount that is added is NaN.
  pub day_spend_exceeded-kept :
      (db : List (DaySpendRow usd.Amount)) (adds : List (Add usd.Amount)) (caps : Caps usd.Amount)
      (now later : String)
      → All (λ a. IsNumber a.delta) adds
      → usd.at_least caps.spend_cap_usd usd.zero_usd ≡ true
      → utc_day_key now ≡ utc_day_key later
      → day_spend_exceeded usd db caps now ≡ true
      → day_spend_exceeded usd (after_adds db adds) caps later ≡ true
  unfolding after_adds day_spend_exceeded
  day_spend_exceeded-kept db [] caps now later ns c same h = rw⁻¹ same h
  day_spend_exceeded-kept db (a ∷ adds) caps now later (n, ns) c same h =
      day_spend_exceeded-kept (add_day_spend usd db a.delta a.now).1 adds caps now later ns c same
        (over-add_call db a caps (utc_day_key now) n c h)
