-- ===== src/LocalStore/Outbox/Loop.antt =====
-- packages/local-store/src/store.ts: the loop of `leaseOutbox` ends by itself.
use carpe_os.Common.{
  ℕ, zero, suc, ◌+◌, ◌≤◌, ◌<◌, ◌≡◌, refl, sym, Bool, true, false, ◌&&◌, List, [], ◌∷◌, ltb, length,
  arith, Bool-cases, inl, inr,
}
use carpe_os.LocalStore.Outbox.{
  LeaseCall, JoinedRow, LeaseState, scan_cap, scan_row, scan_batch, head_rows, all_leased,
  after_batch, scan,
}

scanned-batch :
    (c : LeaseCall) (js : List JoinedRow) (st : LeaseState)
    → st.scanned ≤ (scan_batch c js st).scanned
unfolding scan_batch
scanned-batch c [] st = omega arith
scanned-batch c (j ∷ js) st = ground (arith, scanned-batch c js (scan_row c j st))

-- a batch that is not empty is scanned at least in part
scanned_more :
    (c : LeaseCall) (j : JoinedRow) (js : List JoinedRow) (st : LeaseState)
    → ltb (length st.leased_ids) c.limit ≡ true
    → st.scanned < (scan_batch c (j ∷ js) st).scanned
unfolding scan_batch
scanned_more c j js st h = ground (arith, scanned-batch c js (scan_row c j st))

after_batch-fuel :
    (c : LeaseCall) (f g : ℕ) (js : List JoinedRow) (st : LeaseState)
    → ltb (length st.leased_ids) c.limit ≡ true
    → scan_cap c ≤ st.scanned + suc f
    → scan_cap c ≤ st.scanned + suc g
    → ((st' : LeaseState)
        → scan_cap c ≤ st'.scanned + f
        → scan_cap c ≤ st'.scanned + g
        → scan c f st' ≡ scan c g st')
    → after_batch c js st (λ st'. scan c f st') ≡ after_batch c js st (λ st'. scan c g st')
after_batch-fuel c f g [] st more p q ih = refl
after_batch-fuel c f g (j ∷ js) st more p q ih =
    elim (Bool-cases (all_leased (scan_batch c (j ∷ js) st).leased_ids (j ∷ js))) [
      | inl done ↦ rw (done, after_batch) refl
      | inr left ↦
          rw (left, after_batch)
            (let grown = scanned_more c j js st more in
              ih (scan_batch c (j ∷ js) st) (omega (arith, grown)) (omega (arith, grown)))
    ]

and_left : (a b : Bool) → (a && b) ≡ true → a ≡ true
and_left true b h = refl
and_left false b h = cc

ended :
    (c : LeaseCall) (g : ℕ) (st : LeaseState)
    → scan_cap c ≤ st.scanned + zero
    → st ≡ scan c (suc g) st
unfolding scan
ended c g st p =
    let done : (ltb (length st.leased_ids) c.limit && ltb st.scanned (scan_cap c)) ≡ false =
      ground arith in
    rw (done, scan) refl

-- The loop of `leaseOutbox` ends by its own tests, never for want of rounds: any two numbers of
-- rounds that cover what is left of its scan give the same state, such as the one that the model
-- gives it and any greater one.
pub scan_enough :
    (c : LeaseCall) (f g : ℕ) (st : LeaseState)
    → scan_cap c ≤ st.scanned + f
    → scan_cap c ≤ st.scanned + g
    → scan c f st ≡ scan c g st
unfolding scan
scan_enough c zero zero st p q = refl
scan_enough c zero (suc g) st p q = ended c g st p
scan_enough c (suc f) zero st p q = sym (ended c f st q)
scan_enough c (suc f) (suc g) st p q =
    elim (Bool-cases (ltb (length st.leased_ids) c.limit && ltb st.scanned (scan_cap c))) [
      | inr done ↦ rw (done, scan) refl
      | inl more ↦
          rw (more, scan)
            (after_batch-fuel c f g (head_rows c st) st (and_left _ _ more) p q
              λ st' r s. scan_enough c f g st' r s)
    ]
