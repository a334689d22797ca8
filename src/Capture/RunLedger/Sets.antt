-- ===== src/Capture/RunLedger/Sets.antt =====
-- `uniqueSorted` of packages/capture/src/run-ledger.ts makes the one ascending list of a set.
use carpe_os.Common.{
  ◌≡◌, refl, sym, ap, ◌∙◌, subst, String, Bool, true, false, not, ◌||◌, ◌&&◌, List, [], ◌∷◌, keep,
  All, str_eq, eq_iff, eq_refl, arith, Bool-cases, inl, inr,
}
use carpe_os.Common.Text.{text_lt}
use carpe_os.Common.TextOrder.{text_lt_asym, text_lt_trans, text_lt_total}
use carpe_os.Capture.RunLedger.{distinct, insert_text, sort_texts, unique_sorted}

unfoldable pub is_member : String → List String → Bool
is_member k [] = false
is_member k (x ∷ xs) = str_eq x k || is_member k xs

abbrev pub IsAscending : List String → Type 0
IsAscending [] = Unit
IsAscending (x ∷ xs) = All (λ y. text_lt x y ≡ true) xs × IsAscending xs

abbrev IsDistinct : List String → Type 0
IsDistinct [] = Unit
IsDistinct (x ∷ xs) = (is_member x xs ≡ false) × IsDistinct xs

is_member-insert_text :
    (k x : String) (ys : List String)
    → is_member k (insert_text x ys) ≡ (str_eq x k || is_member k ys)
unfolding is_member insert_text
is_member-insert_text k x [] = refl
is_member-insert_text k x (y ∷ ys) = ground (arith, is_member-insert_text k x ys)

is_member-sort_texts :
    (k : String) (xs : List String) → is_member k (sort_texts xs) ≡ is_member k xs
unfolding is_member sort_texts
is_member-sort_texts k [] = refl
is_member-sort_texts k (x ∷ xs) =
    is_member-insert_text k x (sort_texts xs)
    ∙ ap (λ b. str_eq x k || b) (is_member-sort_texts k xs)

is_member-keep :
    (k x : String) (ys : List String)
    → is_member k (keep (λ y. not (str_eq y x)) ys) ≡ (is_member k ys && not (str_eq k x))
unfolding is_member
is_member-keep k x [] = refl
is_member-keep k x (y ∷ ys) =
    ground (arith, is_member-keep k x ys, eq_iff y k, eq_iff y x, eq_iff k x)

is_member-distinct : (k : String) (xs : List String) → is_member k (distinct xs) ≡ is_member k xs
unfolding is_member distinct
is_member-distinct k [] = refl
is_member-distinct k (x ∷ xs) =
    ground
      (arith, is_member-keep k x (distinct xs), is_member-distinct k xs, eq_iff x k, eq_iff k x)

keep-absent :
    (p : String → Bool) (k : String) (xs : List String)
    → is_member k xs ≡ false
    → is_member k (keep p xs) ≡ false
unfolding is_member
keep-absent p k [] h = refl
keep-absent p k (x ∷ xs) h = ground (arith, keep-absent p k xs)

keep-IsDistinct : (p : String → Bool) (xs : List String) → IsDistinct xs → IsDistinct (keep p xs)
keep-IsDistinct p [] d = tt
keep-IsDistinct p (x ∷ xs) (n, d) = elim (Bool-cases (p x)) [
  | inl kept ↦ rw kept (keep-absent p x xs n, keep-IsDistinct p xs d)
  | inr dropped ↦ rw dropped (keep-IsDistinct p xs d)
]

distinct-IsDistinct : (xs : List String) → IsDistinct (distinct xs)
unfolding distinct
distinct-IsDistinct [] = tt
distinct-IsDistinct (x ∷ xs) = (
  is_member-keep x x (distinct xs) ∙ ground (arith, eq_refl x),
  keep-IsDistinct (λ y. not (str_eq y x)) (distinct xs) (distinct-IsDistinct xs),
)

All-insert_text :
    (P : String → Type 0) (x : String) (ys : List String)
    → P x
    → All P ys
    → All P (insert_text x ys)
unfolding insert_text
All-insert_text P x [] p h = (p, tt)
All-insert_text P x (y ∷ ys) p (q, h) = elim (Bool-cases (text_lt y x)) [
  | inl above ↦ rw above (q, All-insert_text P x ys p h)
  | inr below ↦ rw below (p, (q, h))
]

All-above :
    (x y : String) (ys : List String)
    → text_lt x y ≡ true
    → All (λ z. text_lt y z ≡ true) ys
    → All (λ z. text_lt x z ≡ true) ys
All-above x y [] l h = tt
All-above x y (z ∷ ys) l (m, h) = (text_lt_trans x y z l m, All-above x y ys l h)

insert_text-IsAscending :
    (x : String) (ys : List String)
    → is_member x ys ≡ false
    → IsAscending ys
    → IsAscending (insert_text x ys)
unfolding insert_text is_member
insert_text-IsAscending x [] n a = (tt, tt)
insert_text-IsAscending x (y ∷ ys) n (h, a) = elim (Bool-cases (text_lt y x)) [
  | inl above ↦ rw above (
    All-insert_text (λ z. text_lt y z ≡ true) x ys above h,
    insert_text-IsAscending x ys (ground (arith, n)) a,
  )
  | inr below ↦
      let first : text_lt x y ≡ true =
        ground (arith, n, below, text_lt_total y x below, eq_iff y x) in
      rw below ((first, All-above x y ys first h), (h, a))
]

sort_texts-IsAscending : (xs : List String) → IsDistinct xs → IsAscending (sort_texts xs)
unfolding sort_texts
sort_texts-IsAscending [] d = tt
sort_texts-IsAscending (x ∷ xs) (n, d) =
    insert_text-IsAscending x (sort_texts xs) (is_member-sort_texts x xs ∙ n)
      (sort_texts-IsAscending xs d)

pub unique_sorted-IsAscending : (xs : List String) → IsAscending (unique_sorted xs)
unfolding unique_sorted
unique_sorted-IsAscending xs = sort_texts-IsAscending (distinct xs) (distinct-IsDistinct xs)

pub is_member-unique_sorted :
    (k : String) (xs : List String) → is_member k (unique_sorted xs) ≡ is_member k xs
unfolding unique_sorted
is_member-unique_sorted k xs = is_member-sort_texts k (distinct xs) ∙ is_member-distinct k xs

All-member :
    (P : String → Type 0) (k : String) (xs : List String) → All P xs → is_member k xs ≡ true → P k
unfolding is_member
All-member P k [] h m = ground (arith, m)
All-member P k (x ∷ xs) (p, h) m = elim (Bool-cases (str_eq x k)) [
  | inl here ↦ subst P ((eq_iff x k).0 here) p
  | inr other ↦ All-member P k xs h (ground (arith, m, other))
]

absent_below :
    (x : String) (xs : List String) → All (λ y. text_lt x y ≡ true) xs → is_member x xs ≡ false
absent_below x xs h = elim (Bool-cases (is_member x xs)) [
  | inr absent ↦ absent
  | inl there ↦
      let l = All-member (λ y. text_lt x y ≡ true) x xs h there in
      ground (arith, l, text_lt_asym x x l)
]

heads_same :
    (x y : String) (xs ys : List String)
    → All (λ z. text_lt x z ≡ true) xs
    → All (λ z. text_lt y z ≡ true) ys
    → ((k : String) → is_member k (x ∷ xs) ≡ is_member k (y ∷ ys))
    → x ≡ y
unfolding is_member
heads_same x y xs ys h g e = elim (Bool-cases (str_eq x y)) [
  | inl here ↦ (eq_iff x y).0 here
  | inr other ↦
      let x_in : is_member x ys ≡ true =
        ground (arith, e x, eq_refl x, other, eq_iff x y, eq_iff y x) in
      let y_in : is_member y xs ≡ true =
        ground (arith, e y, eq_refl y, other, eq_iff x y, eq_iff y x) in
      let above = All-member (λ z. text_lt y z ≡ true) x ys g x_in in
      let below = All-member (λ z. text_lt x z ≡ true) y xs h y_in in
      ground (arith, above, below, text_lt_asym x y below)
]

tails_same :
    (x : String) (xs ys : List String)
    → All (λ z. text_lt x z ≡ true) xs
    → All (λ z. text_lt x z ≡ true) ys
    → ((k : String) → is_member k (x ∷ xs) ≡ is_member k (x ∷ ys))
    → (k : String) → is_member k xs ≡ is_member k ys
unfolding is_member
tails_same x xs ys h g e k = elim (Bool-cases (str_eq x k)) [
  | inl here ↦
      subst (λ j. is_member j xs ≡ is_member j ys) ((eq_iff x k).0 here)
        (absent_below x xs h ∙ sym (absent_below x ys g))
  | inr other ↦ ground (arith, e k, other)
]

-- an ascending list is determined by its members
pub ascending_unique :
    (xs ys : List String)
    → IsAscending xs
    → IsAscending ys
    → ((k : String) → is_member k xs ≡ is_member k ys)
    → xs ≡ ys
unfolding is_member
ascending_unique [] [] a b e = refl
ascending_unique [] (y ∷ ys) a b e = ground (arith, e y, eq_refl y)
ascending_unique (x ∷ xs) [] a b e = ground (arith, e x, eq_refl x)
ascending_unique (x ∷ xs) (y ∷ ys) (h, a) (g, b) e =
    let first : x ≡ y = heads_same x y xs ys h g e in
    let g' : All (λ z. text_lt x z ≡ true) ys =
      subst (λ v. All (λ z. text_lt v z ≡ true) ys) (sym first) g in
    let e' : (k : String) → is_member k (x ∷ xs) ≡ is_member k (x ∷ ys) =
      λ k. e k ∙ ap (λ v. is_member k (v ∷ ys)) (sym first) in
    cc (first, ascending_unique xs ys a b (tails_same x xs ys h g' e'))
