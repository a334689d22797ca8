-- ===== src/Common/Code.antt =====
-- Texts as sequences of characters: `trim`, `length` in UTF-16 code units, `slice(0, n)`, and the
-- comparison of a lower-cased text with a word.
use Prim.Native.Nat.{ℕ, zero, suc, ◌+◌, ◌-◌, ◌≤◌}
use Prim.Native.Char.{Char, code}
use Prim.Native.String
use Prim.Native.String.{String, [], ◌∷◌}
use Prim.Native.String.append
use mathlib.Core.Path.{◌≡◌, refl, sym, ap, ◌∙◌}
use mathlib.Core.Logic.{inl, inr}
use mathlib.Core.Bool.{Bool, true, false, ◌&&◌, ◌||◌}
use native.Mathlib.Omega.{arith}
use carpe_os.Common.Tests.{if◌then◌else◌, ltb, leb, ◌==◌, Bool-cases}

-- the white space and line ends that `trim` removes
is_space : Char → Bool
is_space c =
    let n = code c in
    (leb 9 n && leb n 13)
    || n == 32
    || n == 160
    || n == 5760
    || (leb 8192 n && leb n 8202)
    || n == 8232
    || n == 8233
    || n == 8239
    || n == 8287
    || n == 12288
    || n == 65279

abbrev is_empty : String → Bool
is_empty [] = true
is_empty (c ∷ s) = false

trim_start : String → String
trim_start [] = []
trim_start (c ∷ s) = let rest = trim_start s in if is_space c then rest else c ∷ s

trim_end : String → String
trim_end [] = []
trim_end (c ∷ s) = let rest = trim_end s in if is_empty rest && is_space c then [] else c ∷ rest

unfoldable pub trim : String → String
unfolding trim_start trim_end is_space
trim s = trim_end (trim_start s)

-- the UTF-16 code units of a character
abbrev pub units : Char → ℕ
units c = if ltb (code c) 65536 then 1 else 2

-- `s.length`
unfoldable pub text_length : String → ℕ
text_length [] = 0
text_length (c ∷ s) = units c + text_length s

-- `s.slice(0, n)`, which keeps whole characters here; the code may cut a pair of surrogates
unfoldable pub text_take : ℕ → String → String
text_take n [] = []
text_take n (c ∷ s) =
    let rest = text_take (n - units c) s in if leb (units c) n then c ∷ rest else []

lower_code : ℕ → ℕ
lower_code n = if leb b'A' n && leb n b'Z' then n + 32 else if n == 8490 then b'k' else n

-- `s.toLowerCase() === t` where `t` is in ASCII and has no capital: only the letters A to Z and the
-- Kelvin sign become such letters alone
unfoldable pub lowers_to : String → String → Bool
unfolding lower_code
lowers_to [] [] = true
lowers_to [] (d ∷ t) = false
lowers_to (c ∷ s) [] = false
lowers_to (c ∷ s) (d ∷ t) = lower_code (code c) == code d && lowers_to s t

-- `s.startsWith(t)`
unfoldable pub starts_with : String → String → Bool
starts_with s [] = true
starts_with [] (d ∷ t) = false
starts_with (c ∷ s) (d ∷ t) = code c == code d && starts_with s t

-- `s.includes(t)`
unfoldable pub includes : String → String → Bool
unfolding starts_with
includes [] t = starts_with [] t
includes (c ∷ s) t = starts_with (c ∷ s) t || includes s t

add_within : (k l n : ℕ) → leb k n ≡ true → l ≤ n - k → k + l ≤ n
add_within k l n h r = ground arith

pub text_length-text_take : (n : ℕ) (s : String) → text_length (text_take n s) ≤ n
unfolding text_length text_take
text_length-text_take n [] = omega arith
text_length-text_take n (c ∷ s) = elim (Bool-cases (leb (units c) n)) [
  | inl fits ↦ rw fits (
      add_within (units c) (text_length (text_take (n - units c) s)) n fits
        (text_length-text_take (n - units c) s))
  | inr over ↦ rw over (omega arith)
]

trim_test : trim "  a b\n" ≡ "a b"
unfolding trim
trim_test = refl

lowers_to_test : lowers_to "Active" "active" ≡ true
unfolding lowers_to
lowers_to_test = refl

pub text_length-append :
    (s t : String) → text_length (String.◌++◌ s t) ≡ text_length s + text_length t
unfolding text_length
text_length-append [] t = ap text_length (append.nil t) ∙ omega arith
text_length-append (c ∷ s) t =
    ap text_length (append.cons c s t)
    ∙ ap (λ n. units c + n) (text_length-append s t)
    ∙ omega arith

hex_lower_char : Char → Char
hex_lower_char c =
    if code c == b'A'
    then "a"
    else if code c == b'B'
    then "b"
    else if code c == b'C'
    then "c"
    else if code c == b'D'
    then "d"
    else if code c == b'E'
    then "e"
    else if code c == b'F'
    then "f"
    else c

-- `s.toLowerCase()` of a text in hexadecimal digits
unfoldable pub hex_lower : String → String
unfolding hex_lower_char
hex_lower [] = []
hex_lower (c ∷ s) = hex_lower_char c ∷ hex_lower s

-- a character and what it becomes, which stays as it is
hex_lowered : (c : Char) → (d : Char) × (hex_lower_char c ≡ d) × (hex_lower_char d ≡ d)
unfolding hex_lower_char
hex_lowered c = elim (Bool-cases (code c == b'A')) [
  | inl e ↦ ("a", rw (e) refl, refl)
  | inr n0 ↦ elim (Bool-cases (code c == b'B')) [
    | inl e ↦ ("b", rw (n0, e) refl, refl)
    | inr n1 ↦ elim (Bool-cases (code c == b'C')) [
      | inl e ↦ ("c", rw (n0, n1, e) refl, refl)
      | inr n2 ↦ elim (Bool-cases (code c == b'D')) [
        | inl e ↦ ("d", rw (n0, n1, n2, e) refl, refl)
        | inr n3 ↦ elim (Bool-cases (code c == b'E')) [
          | inl e ↦ ("e", rw (n0, n1, n2, n3, e) refl, refl)
          | inr n4 ↦ elim (Bool-cases (code c == b'F')) [
            | inl e ↦ ("f", rw (n0, n1, n2, n3, n4, e) refl, refl)
            | inr n5 ↦ (c, rw (n0, n1, n2, n3, n4, n5) refl, rw (n0, n1, n2, n3, n4, n5) refl)
          ]
        ]
      ]
    ]
  ]
]

hex_lower_char_twice : (c : Char) → hex_lower_char (hex_lower_char c) ≡ hex_lower_char c
hex_lower_char_twice c = let (d, p, q) = hex_lowered c in ap (λ x. hex_lower_char x) p ∙ q ∙ sym p

-- lower case is final
pub hex_lower_twice : (s : String) → hex_lower (hex_lower s) ≡ hex_lower s
unfolding hex_lower
hex_lower_twice [] = refl
hex_lower_twice (c ∷ s) = rw (hex_lower_char_twice c, hex_lower_twice s) refl

hex_lower_test : hex_lower "0A1F" ≡ "0a1f"
unfolding hex_lower
hex_lower_test = refl

-- `s.slice(n)` of a text whose first `n` characters are in ASCII
unfoldable pub text_drop : ℕ → String → String
text_drop zero s = s
text_drop (suc n) [] = []
text_drop (suc n) (c ∷ s) = text_drop n s
