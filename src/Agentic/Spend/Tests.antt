-- ===== src/Agentic/Spend/Tests.antt =====
-- Concrete days of packages/agentic/src/spend.ts, with amounts in halves.
use carpe_os.Common.{
  ℕ, suc, ◌+◌, ◌-◌, ◌/◌, ◌≡◌, refl, Bool, true, false, List, [], ◌∷◌, leb, ltb, if◌then◌else◌,
  arith,
}
use carpe_os.Common.Code.{text_take}
use carpe_os.Agentic.Spend.{
  Amounts, DaySpendRow, Caps, ℤ, pos, negsuc, utc_day_key, load_day_spend, day_spend_exceeded,
}
use carpe_os.Common.Table.{find}
use carpe_os.Agentic.Spend.Days.{
  Add, after_adds, calls_on, after_adds-calls, day_spend_exceeded-kept,
}

at_least_int : ℤ → ℤ → Bool
at_least_int (pos a) (pos b) = leb b a
at_least_int (pos a) (negsuc b) = true
at_least_int (negsuc a) (pos b) = false
at_least_int (negsuc a) (negsuc b) = leb a b

abbrev minus_int : (a b : ℕ) → ℤ
minus_int a b = if ltb a b then negsuc (b - suc a) else pos (a - b)

plus_int : ℤ → ℤ → ℤ
plus_int (pos a) (pos b) = pos (a + b)
plus_int (pos a) (negsuc b) = minus_int a (suc b)
plus_int (negsuc a) (pos b) = minus_int b (suc a)
plus_int (negsuc a) (negsuc b) = negsuc (suc (a + b))

halves : ℤ → ℤ
halves (pos n) = pos (n / 2)
halves (negsuc n) = negsuc (n / 2)

zero_least : at_least_int (pos 0) (pos 0) ≡ true
unfolding at_least_int
zero_least = refl

plus_least :
    (a b c : ℤ)
    → at_least_int a c ≡ true
    → at_least_int b (pos 0) ≡ true
    → at_least_int c (pos 0) ≡ true
    → at_least_int (plus_int a b) c ≡ true
unfolding at_least_int plus_int
plus_least (pos a) (pos b) (pos c) h k l = ground arith
plus_least (negsuc a) (pos b) (pos c) h k l = ground arith
plus_least a (negsuc b) c h k l = ground arith
plus_least a b (negsuc c) h k l = ground arith

abbrev half_dollars : Amounts
half_dollars = record {
  Amount = ℤ;
  zero_usd = pos 0;
  plus = plus_int;
  floor = halves;
  at_least = at_least_int;
  zero-least = zero_least;
  plus-least = plus_least;
}

abbrev spent : List (DaySpendRow ℤ)
spent = record { day_utc = "2026-07-01"; spend_usd = pos 500; calls = 30 } ∷ []

-- two and a half calls, three on another day, and minus two
abbrev adds : List (Add ℤ)
adds =
    record { delta = record { spend_usd = pos 7; calls = pos 5 }; now = "2026-07-01T10:00:00.000Z" }
    ∷ record {
      delta = record { spend_usd = pos 9; calls = pos 6 };
      now = "2026-07-02T10:00:00.000Z";
    }
    ∷ record {
      delta = record { spend_usd = negsuc 8; calls = negsuc 3 };
      now = "2026-07-01T11:00:00.000Z";
    }
    ∷ []

after_adds-calls_example :
    (load_day_spend half_dollars (after_adds half_dollars spent adds) "2026-07-01").calls ≡ 32
unfolding load_day_spend calls_on utc_day_key text_take find halves
after_adds-calls_example = after_adds-calls half_dollars spent adds "2026-07-01"

abbrev caps : Caps ℤ
caps = record { spend_cap_usd = pos 500; max_calls = 500 }

day_spend_exceeded-kept_example :
    day_spend_exceeded half_dollars
      (after_adds half_dollars spent adds)
      caps
      "2026-07-01T12:00:00.000Z"
    ≡ true
unfolding day_spend_exceeded load_day_spend utc_day_key text_take find at_least_int
day_spend_exceeded-kept_example =
    day_spend_exceeded-kept half_dollars spent adds caps "2026-07-01T09:00:00.000Z"
      "2026-07-01T12:00:00.000Z" (refl, (refl, (refl, tt))) refl refl refl
