-- ===== src/Json/Laws/Tests.antt =====
-- Concrete texts.
use carpe_os.Common.{◌≡◌, ◌≢◌, refl, ap, true, String, str_eq, false, arith}
use carpe_os.Json.{
  Members, end, field, num, str, object, array, no_items, item, null, undefined, stable_json,
}
use carpe_os.Json.Laws.{swap, stable_json-reordered}

stable_json_test :
    stable_json (
      object (
        field "b"
          (num 12)
          (field "z" undefined (field "a" (array (item (str "x\"\n") (item null no_items))) end))))
    ≡ "{\"a\":[\"x\\\"\\n\",null],\"b\":12}"
unfolding stable_json
stable_json_test = refl

abbrev b_first : Members
b_first = field "b" (num 12) (field "a" null end)

abbrev a_first : Members
a_first = field "a" null (field "b" (num 12) end)

b_not_a : ◌≢◌ {A = String} "b" "a"
b_not_a p = let e : false ≡ true = ap (λ s. str_eq s "a") p in ground (arith, e)

stable_json-reordered_example : stable_json (object b_first) ≡ stable_json (object a_first)
stable_json-reordered_example = stable_json-reordered (swap b_not_a)
