-- ===== src/Agentic/Spend.antt =====
-- packages/agentic/src/spend.ts: the spend of each UTC day and its caps. An amount of dollars, and
-- what is added to the calls, is a double: a type with `+`, `>=` and `Math.floor`, of which only what
-- the caps rely on is assumed. Reading a row and writing it back is one step here.
pub mod Days
mod Tests
use carpe_os.Common.{
  ℕ, ◌+◌, ◌≡◌, String, Bool, true, ◌||◌, List, [], ◌∷◌, leb, or_else, str_eq, if◌then◌else◌,
}
use carpe_os.Common.Table.{find}
use carpe_os.Common.Code.{text_take}

-- a whole number, as `Math.floor` gives it
pub data ℤ : Type 0 where
  pos : ℕ → ℤ
  negsuc : ℕ → ℤ

-- doubles, NaN among them, with `+`, `>=` and the `Math.floor` of a finite one; rounded addition of an
-- amount that is not negative does not take a sum below a bound that is not negative
pub record Amounts : Type 1 where
  pub Amount : Type 0
  pub zero_usd : Amount
  pub plus : Amount → Amount → Amount
  pub floor : Amount → ℤ
  pub at_least : Amount → Amount → Bool
  pub zero-least : at_least zero_usd zero_usd ≡ true
  pub plus-least :
      (a b c : Amount)
      → at_least a c ≡ true
      → at_least b zero_usd ≡ true
      → at_least c zero_usd ≡ true
      → at_least (plus a b) c ≡ true

pub record DaySpendRow (A : Type 0) : Type 0 where
  pub day_utc : String
  pub spend_usd : A
  pub calls : ℕ

pub record Delta (A : Type 0) : Type 0 where
  pub spend_usd : A
  pub calls : A

pub record Caps (A : Type 0) : Type 0 where
  pub spend_cap_usd : A
  pub max_calls : ℕ

-- `now.toISOString().slice(0, 10)`, of the ISO text of a time
unfoldable pub utc_day_key : String → String
utc_day_key now = text_take 10 now

-- `Math.max(0, _)` of a whole number
abbrev pub whole_calls : ℤ → ℕ
whole_calls (pos n) = n
whole_calls (negsuc n) = 0

abbrev pub row_day : {A : Type 0} → DaySpendRow A → String
row_day r = r.day_utc

-- INSERT … ON CONFLICT(day_utc) DO UPDATE
unfoldable pub upsert_day :
    {A : Type 0} → DaySpendRow A → List (DaySpendRow A) → List (DaySpendRow A)
upsert_day r [] = r ∷ []
upsert_day r (q ∷ rows) = if str_eq q.day_utc r.day_utc then r ∷ rows else q ∷ upsert_day r rows

module _ (usd : Amounts) where
  unfoldable pub load_day_spend : List (DaySpendRow usd.Amount) → String → DaySpendRow usd.Amount
  load_day_spend db day =
      or_else (find row_day day db) (record { day_utc = day; spend_usd = usd.zero_usd; calls = 0 })

  -- `Math.max(0, a)`, which is NaN where `a` is
  abbrev pub not_negative : usd.Amount → usd.Amount
  not_negative a =
      if usd.at_least a usd.zero_usd
      then a
      else if usd.at_least usd.zero_usd a
      then usd.zero_usd
      else a

  abbrev pub add_to_day : DaySpendRow usd.Amount → Delta usd.Amount → DaySpendRow usd.Amount
  add_to_day prev delta = record prev {
    spend_usd = usd.plus prev.spend_usd (not_negative delta.spend_usd);
    calls = prev.calls + whole_calls (usd.floor delta.calls);
  }

  unfoldable pub add_day_spend :
      List (DaySpendRow usd.Amount)
      → Delta usd.Amount
      → (now : String) → DaySpendRow usd.Amount × List (DaySpendRow usd.Amount)
  add_day_spend db delta now =
      let day = utc_day_key now in
      let next = record (add_to_day (load_day_spend db day) delta) { day_utc = day } in
      (next, upsert_day next db)

  abbrev pub over : DaySpendRow usd.Amount → Caps usd.Amount → Bool
  over row caps = usd.at_least row.spend_usd caps.spend_cap_usd || leb caps.max_calls row.calls

  unfoldable pub day_spend_exceeded :
      List (DaySpendRow usd.Amount) → Caps usd.Amount → (now : String) → Bool
  day_spend_exceeded db caps now = over (load_day_spend db (utc_day_key now)) caps
