-- ===== src/Common/Faults.antt =====
-- What a call gives that may throw an `Error`: a value, or the error's message.
use Prim.Native.String.{String}
use mathlib.Core.Bool.{Bool}
use carpe_os.Common.Tests.{if◌then◌else◌}

pub data Fallible {ℓ} (A : Type ℓ) : Type ℓ where
  threw : (message : String) → Fallible A
  ok : (value : A) → Fallible A

-- `if (!test) throw new Error(message)`
abbrev pub guard : (test : Bool) (message : String) → Fallible (Unit {0})
guard test message = if test then ok tt else threw message

infixl 5 ◌>>◌ ◌>>=◌
-- the statements after one that returns nothing
abbrev pub ◌>>◌ {ℓ} : {A : Type ℓ} → Fallible (Unit {0}) → Fallible A → Fallible A
threw message >> rest = threw message
ok done >> rest = rest

abbrev pub ◌>>=◌ {ℓ} : {A B : Type ℓ} → Fallible A → (A → Fallible B) → Fallible B
threw message >>= rest = threw message
ok value >>= rest = rest value
