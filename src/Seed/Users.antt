-- ===== src/Seed/Users.antt =====
-- The batches of load users, put together.
use mathlib.Core.Path.{subst}
use ticker_watch_case_study.Base.{
  ℕ, zero, suc, ◌+◌, ◌-◌, ◌≤◌, ◌≡◌, refl, ap, sym, ◌∙◌, true, false, Option, some, List, [], ◌∷◌,
  ◌++◌, arith, map, All, Distinct, contains, ltb, length, append_cancel, ◌==◌, Bool-cases, inl, inr,
}
use ticker_watch_case_study.Base.Decimal.{decimal, decimal_injective}
use ticker_watch_case_study.Base.Text.{Text, text, text_key}
use ticker_watch_case_study.Seed.{
  UserRecord, load_user, user_records, copy_batch, batch_size, user_batches,
}

abbrev pub concat : {A : Type 0} → List (List A) → List A
concat [] = []
concat (xs ∷ xss) = xs ++ concat xss

same_records :
    (m n : ℕ) (hash : Text) (a b : ℕ)
    → m ≡ n
    → a ≡ b
    → user_records m hash a ≡ user_records n hash b
same_records m n hash a b p q =
    ap (λ (k : ℕ). user_records k hash a) p ∙ ap (λ (k : ℕ). user_records n hash k) q

append-user_records :
    (m n : ℕ) (hash : Text) (offset : ℕ)
    → user_records m hash offset ++ user_records n hash (offset + m)
      ≡ user_records (m + n) hash offset
unfolding user_records
append-user_records zero n hash offset =
    same_records n (0 + n) hash (offset + 0) offset (omega arith) (omega arith)
append-user_records (suc m) n hash offset =
    ap (λ (us : List UserRecord). load_user hash (suc offset) ∷ us)
      (ap (λ (us : List UserRecord). user_records m hash (suc offset) ++ us)
          (same_records n n hash (offset + suc m) (suc offset + m) refl (omega arith))
        ∙ append-user_records m n hash (suc offset))
    ∙ same_records (suc (m + n)) (suc m + n) hash offset offset (omega arith) refl

length-user_records : (m : ℕ) (hash : Text) (offset : ℕ) → length (user_records m hash offset) ≡ m
unfolding user_records
length-user_records zero hash offset = refl
length-user_records (suc m) hash offset = ap suc (length-user_records m hash (suc offset))

batch_size-bounds :
    (done remaining : ℕ)
    → ltb done remaining ≡ true
    → (1 ≤ batch_size done remaining)
      × (batch_size done remaining ≤ copy_batch)
      × (batch_size done remaining + (remaining - (done + batch_size done remaining))
          ≡ remaining - done)
unfolding batch_size
batch_size-bounds done remaining more = ground (arith, more)

-- what the loop has still to copy
abbrev Copies : Text → ℕ → ℕ → Option (List (List UserRecord)) → Type 0
Copies hash missing from result =
    (batches : List (List UserRecord)) × (result ≡ some batches)
    × (concat batches ≡ user_records missing hash from)
    × All (λ b. length b ≤ copy_batch) batches

nothing_left : (hash : Text) (missing from : ℕ) → 0 ≡ missing → Copies hash missing from (some [])
unfolding user_records
nothing_left hash missing from none_left =
    ([], refl, same_records 0 missing hash from from none_left refl, tt)

batches_from :
    (fuel : ℕ) (hash : Text) (offset done remaining : ℕ)
    → remaining - done ≤ fuel
    → Copies hash (remaining - done) (offset + done) (user_batches fuel hash offset done remaining)
unfolding user_batches
batches_from zero hash offset done remaining enough =
    let over : ltb done remaining ≡ false = ground (arith, enough) in
    rw (user_batches, over)
      (nothing_left hash (remaining - done) (offset + done) (omega (arith, enough)))
batches_from (suc fuel) hash offset done remaining enough = elim (Bool-cases (ltb done remaining)) [
  | inr over ↦
      rw (user_batches, over)
        (nothing_left hash (remaining - done) (offset + done) (ground (arith, over)))
  | inl more ↦
      let k = batch_size done remaining in
      let (some_done, small, split) = batch_size-bounds done remaining more in
      let (rest, e, records, all_small) =
        batches_from fuel hash offset (done + k) remaining
          (omega (arith, enough, some_done, split)) in
      rw (user_batches, more, e)
        (
          user_records k hash (offset + done) ∷ rest,
          refl,
          ap (λ (us : List UserRecord). user_records k hash (offset + done) ++ us)
                (records
                  ∙ same_records (remaining - (done + k)) (remaining - (done + k)) hash
                      (offset + (done + k)) (offset + done + k) refl (omega arith))
              ∙ append-user_records k (remaining - (done + k)) hash (offset + done)
              ∙ same_records (k + (remaining - (done + k))) (remaining - done) hash (offset + done)
                  (offset + done) split refl,
          (omega (arith, small, length-user_records k hash (offset + done)), all_small),
        )
]

abbrev pub usernames : List UserRecord → List Text
usernames = map (λ u. u.username)

-- the names behind `offset` do not come again
new_username :
    (i count : ℕ) (hash : Text) (offset : ℕ)
    → i ≤ offset
    → contains (load_user hash i).username (usernames (user_records count hash offset)) ≡ false
unfolding user_records contains load_user
new_username i zero hash offset h = refl
new_username i (suc count) hash offset h =
    elim (Bool-cases
      (text "load_user_" ++ decimal (suc offset) == text "load_user_" ++ decimal i)) [
        | inr other ↦ rw other (new_username i count hash (suc offset) (omega (arith, h)))
        | inl same ↦
            let e = decimal_injective (suc offset) i (
              append_cancel (text "load_user_") (decimal (suc offset)) (decimal i)
                ((text_key.test_iff _ _).0 same)) in
            let off : ⊥ = omega (arith, h, e) in absurd off
      ]

usernames-Distinct :
    (count : ℕ) (hash : Text) (offset : ℕ) → Distinct (usernames (user_records count hash offset))
unfolding user_records
usernames-Distinct zero hash offset = tt
usernames-Distinct (suc count) hash offset = (
  new_username (suc offset) count hash (suc offset) (omega arith),
  usernames-Distinct count hash (suc offset),
)

-- The loop of `seed` ends, after at most as many batches as there are users still missing: its
-- batches, of at most 50,000 users each, are together the users numbered from `offset + 1` to the
-- preset's number, in this order, and no two of them have one name.
pub user_batches_lem :
    (hash : Text) (offset users_wanted : ℕ)
    → (batches : List (List UserRecord)) × (user_batches
          (users_wanted - offset)
          hash
          offset
          0
          (users_wanted - offset)
        ≡ some batches)
      × (concat batches ≡ user_records (users_wanted - offset) hash offset)
      × All (λ b. length b ≤ copy_batch) batches
      × Distinct (usernames (concat batches))
user_batches_lem hash offset users_wanted =
    let missing = users_wanted - offset in
    let (batches, ends, records, small) =
      batches_from missing hash offset 0 missing (omega arith) in
    let all_of =
      records
      ∙ same_records (missing - 0) missing hash (offset + 0) offset (omega arith) (omega arith) in
    (
      batches,
      ends,
      all_of,
      small,
      subst (λ (us : List UserRecord). Distinct (usernames us)) (sym all_of)
          (usernames-Distinct missing hash offset),
    )
