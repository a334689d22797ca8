-- ===== src/Json.antt =====
-- packages/agentic/src/digest.ts: the stable JSON text that digests are taken of. A JSON number is
-- a natural number here, since the digested records hold no other.
pub mod Laws
use Prim.Native.Char.{Char, code}
use Prim.Native.String
use carpe_os.Common.{
  ℕ, zero, suc, ◌/◌, ◌%◌, String, Bool, true, false, List, [], ◌∷◌, ltb, ◌==◌, if◌then◌else◌,
}
use carpe_os.Common.Text.{◌<>◌, text_lt, decimal}

mutual
  pub data Members : Type 0 where
    field : (key : String) → Value → Members → Members
    end : Members

  pub data Elements : Type 0 where
    item : Value → Elements → Elements
    no_items : Elements

  pub data Value : Type 0 where
    str : String → Value
    num : ℕ → Value
    bool : Bool → Value
    undefined null : Value
    object : Members → Value
    array : Elements → Value

-- the place of a key in `Object.keys(object).sort()`
unfoldable pub insert_field : String → Value → Members → Members
insert_field k v end = field k v end
insert_field k v (field j w fs) =
    if text_lt k j then field k v (field j w fs) else field j w (insert_field k v fs)

-- a member whose value is `undefined` is left out
unfoldable pub put_field : String → Value → Members → Members
put_field k undefined fs = fs
put_field k v fs = insert_field k v fs

unfoldable mutual
  unfolding put_field insert_field

  pub to_stable_json_value : Value → Value
  to_stable_json_value (array xs) = array (stable_items xs)
  to_stable_json_value (object fs) = object (stable_fields fs)
  to_stable_json_value v = v

  pub stable_items : Elements → Elements
  stable_items no_items = no_items
  stable_items (item x xs) = item (to_stable_json_value x) (stable_items xs)

  pub stable_fields : Members → Members
  stable_fields end = end
  stable_fields (field k v fs) = put_field k (to_stable_json_value v) (stable_fields fs)

hex_digit : ℕ → String
hex_digit n =
    if ltb n 10
    then decimal n
    else if n == 10
    then "a"
    else if n == 11
    then "b"
    else if n == 12
    then "c"
    else if n == 13
    then "d"
    else if n == 14
    then "e"
    else "f"

-- one character of `JSON.stringify` of a text
escape_char : Char → String
escape_char c =
    if code c == 34
    then "\\\""
    else if code c == 92
    then "\\\\"
    else if code c == 8
    then "\\b"
    else if code c == 9
    then "\\t"
    else if code c == 10
    then "\\n"
    else if code c == 12
    then "\\f"
    else if code c == 13
    then "\\r"
    else if ltb (code c) 32
    then "\\u00" <> hex_digit (code c / 16) <> hex_digit (code c % 16)
    else String.◌∷◌ c ""

escape : String → String
escape String.[] = ""
escape (String.◌∷◌ c s) = escape_char c <> escape s

quoted : String → String
quoted s = "\"" <> escape s <> "\""

-- `JSON.stringify`; a member that is `undefined` has been left out before
unfoldable mutual
  unfolding decimal quoted escape escape_char hex_digit

  pub stringify : Value → String
  stringify undefined = "null"
  stringify null = "null"
  stringify (bool true) = "true"
  stringify (bool false) = "false"
  stringify (num n) = decimal n
  stringify (str s) = quoted s
  stringify (array xs) = "[" <> stringify_items "" xs <> "]"
  stringify (object fs) = "{" <> stringify_fields "" fs <> "}"

  pub stringify_items : String → Elements → String
  stringify_items sep no_items = ""
  stringify_items sep (item x xs) = sep <> stringify x <> stringify_items "," xs

  pub stringify_fields : String → Members → String
  stringify_fields sep end = ""
  stringify_fields sep (field k v fs) =
      sep <> quoted k <> ":" <> stringify v <> stringify_fields "," fs

unfoldable pub stable_json : Value → String
unfolding to_stable_json_value stringify
stable_json v = stringify (to_stable_json_value v)
