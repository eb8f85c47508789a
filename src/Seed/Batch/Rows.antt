-- ===== src/Seed/Batch/Rows.antt =====
-- What each COPY of a batch leaves, and which users its query finds again.
use ticker_watch_case_study.Base.{
  ℕ, suc, ◌+◌, ◌≤◌, ◌<◌, ◌≡◌, refl, ap, sym, ◌∙◌, Bool, true, false, some, List, [], ◌∷◌, ◌++◌, map,
  take, select, contains, length, All, leb, ltb, arith, nat_key, Option-cases, Bool-cases, inl, inr,
  ◌&&◌,
}
use ticker_watch_case_study.Base.Dict.{Dict, keys}
use ticker_watch_case_study.Base.Sort.{sort_by, insert_by, All-sort_by}
use ticker_watch_case_study.Base.Text.{text, starts_with}
use ticker_watch_case_study.Accounts.{UserRow, Watchlists, get_by_username, find_default}
use ticker_watch_case_study.Watchlists.{Items, has_item}
use ticker_watch_case_study.Seed.Batch.{
  copy_users, copy_watchlists, copy_items, default_list, id_desc, is_load_user, new_user_ids,
}

append_assoc :
    {A : Type 0} (xs : List A) (y : A) (zs : List A) → (xs ++ y ∷ []) ++ zs ≡ xs ++ y ∷ zs
append_assoc [] y zs = refl
append_assoc (x ∷ xs) y zs = ap (◌∷◌ x) (append_assoc xs y zs)

append_nil : {A : Type 0} (xs : List A) → xs ++ [] ≡ xs
append_nil [] = refl
append_nil (x ∷ xs) = ap (◌∷◌ x) (append_nil xs)

-- rows with the ids that a sequence gives them
abbrev pub numbered : {A : Type 0} → ℕ → List A → List (ℕ × A)
numbered next [] = []
numbered next (x ∷ xs) = (next, x) ∷ numbered (suc next) xs

pub copy_users_rows :
    (next : ℕ) (rows : List UserRow) (users after : Dict ℕ UserRow)
    → copy_users next rows users ≡ some after
    → after ≡ users ++ numbered next rows
unfolding copy_users
copy_users_rows next [] users after h = ground (arith, h, append_nil users)
copy_users_rows next (row ∷ rows) users after h =
    elim (Option-cases (get_by_username row.username users)) [
      | inr (taken, q) ↦ absurd (ground (arith, h, q))
      | inl free ↦
          copy_users_rows (suc next) rows (users ++ (next, row) ∷ []) after
            (ground (arith, h, free))
          ∙ append_assoc users (next, row) (numbered (suc next) rows)
    ]

pub copy_watchlists_rows :
    (next : ℕ) (ids : List ℕ) (lists after : Watchlists)
    → copy_watchlists next ids lists ≡ some after
    → after ≡ lists ++ numbered next (map default_list ids)
unfolding copy_watchlists
copy_watchlists_rows next [] lists after h = ground (arith, h, append_nil lists)
copy_watchlists_rows next (u ∷ ids) lists after h = elim (Option-cases (find_default u lists)) [
  | inr (taken, q) ↦ absurd (ground (arith, h, q))
  | inl free ↦
      copy_watchlists_rows (suc next) ids (lists ++ (next, default_list u) ∷ []) after
        (ground (arith, h, free))
      ∙ append_assoc lists (next, default_list u) (numbered (suc next) (map default_list ids))
]

pub copy_items_rows :
    (rows items after : Items) → copy_items rows items ≡ some after → after ≡ items ++ rows
unfolding copy_items
copy_items_rows [] items after h = ground (arith, h, append_nil items)
copy_items_rows (i ∷ rows) items after h = elim (Bool-cases (has_item i.0 i.1 items)) [
  | inl taken ↦ absurd (ground (arith, h, taken))
  | inr free ↦
      copy_items_rows rows (items ++ i ∷ []) after (ground (arith, h, free))
      ∙ append_assoc items i rows
]

-- an older user is put behind the newer ones
insert_by-behind :
    (x : ℕ × UserRow) (xs ys : Dict ℕ UserRow)
    → All (λ y. x.0 < y.0) xs
    → insert_by id_desc x (xs ++ ys) ≡ xs ++ insert_by id_desc x ys
unfolding insert_by
insert_by-behind x [] ys h = refl
insert_by-behind x (y ∷ xs) ys h =
    let later : leb y.0 x.0 ≡ false = ground (arith, h.0) in
    rw later (ap (◌∷◌ y) (insert_by-behind x xs ys h.1))

all_later :
    (i next : ℕ) (xs : Dict ℕ UserRow) → i < next → All (λ u. next ≤ u.0) xs → All (λ y. i < y.0) xs
all_later i next [] h n = tt
all_later i next (x ∷ xs) h n = (omega (arith, h, n.0), all_later i next xs h n.1)

-- the newer users come first
sort_by-newer :
    (next : ℕ) (old new : Dict ℕ UserRow)
    → All (λ u. u.0 < next) old
    → All (λ u. next ≤ u.0) (sort_by id_desc new)
    → (rest : Dict ℕ UserRow) × (sort_by id_desc (old ++ new) ≡ sort_by id_desc new ++ rest)
unfolding sort_by
sort_by-newer next [] new h n = ([], sym (append_nil (sort_by id_desc new)))
sort_by-newer next (u ∷ old) new h n =
    let (rest, e) = sort_by-newer next old new h.1 n in
    (
      insert_by id_desc u rest,
      ap (insert_by id_desc u) e
          ∙ insert_by-behind u (sort_by id_desc new) rest
              (all_later u.0 next (sort_by id_desc new) h.0 n),
    )

numbered_from :
    (next i : ℕ) (rows : List UserRow) → next ≤ i → All (λ u. next ≤ u.0) (numbered i rows)
numbered_from next i [] h = tt
numbered_from next i (row ∷ rows) h = (h, numbered_from next (suc i) rows (omega (arith, h)))

length-insert_by :
    (x : ℕ × UserRow) (xs : Dict ℕ UserRow) → length (insert_by id_desc x xs) ≡ suc (length xs)
unfolding insert_by
length-insert_by x [] = refl
length-insert_by x (y ∷ ys) = ground (arith, length-insert_by x ys)

length-sort_by : (xs : Dict ℕ UserRow) → length (sort_by id_desc xs) ≡ length xs
unfolding sort_by
length-sort_by [] = refl
length-sort_by (x ∷ xs) = length-insert_by x (sort_by id_desc xs) ∙ ap suc (length-sort_by xs)

length-numbered : (next : ℕ) (rows : List UserRow) → length (numbered next rows) ≡ length rows
length-numbered next [] = refl
length-numbered next (row ∷ rows) = ap suc (length-numbered (suc next) rows)

take_all : {A : Type 0} (xs ys : List A) → take (length xs) (xs ++ ys) ≡ xs
take_all [] ys = refl
take_all (x ∷ xs) ys = ap (◌∷◌ x) (take_all xs ys)

pub select-append :
    {A : Type 0} (test : A → Bool) (xs ys : List A)
    → select test (xs ++ ys) ≡ select test xs ++ select test ys
unfolding select
select-append test [] ys = refl
select-append test (x ∷ xs) ys = ground (arith, select-append test xs ys)

select_older :
    (next : ℕ) (users : Dict ℕ UserRow)
    → All (λ u. u.0 < next) users
    → All (λ u. u.0 < next) (select is_load_user users)
unfolding select
select_older next [] h = tt
select_older next (u ∷ users) h = elim (Bool-cases (is_load_user u)) [
  | inl load ↦ rw load (h.0, select_older next users h.1)
  | inr other ↦ rw other (select_older next users h.1)
]

-- the rows are those of load users
abbrev pub AreLoadUsers : List UserRow → Type 0
AreLoadUsers = All (λ row. starts_with (text "load_user_") row.username ≡ true)

select_load :
    (next : ℕ) (rows : List UserRow)
    → AreLoadUsers rows
    → select is_load_user (numbered next rows) ≡ numbered next rows
unfolding select is_load_user
select_load next [] h = refl
select_load next (row ∷ rows) h = rw (h.0) (ap (◌∷◌ (next, row)) (select_load (suc next) rows h.1))

-- the query finds just the users of the batch
pub new_user_ids-append :
    (next : ℕ) (rows : List UserRow) (users : Dict ℕ UserRow)
    → All (λ u. u.0 < next) users
    → AreLoadUsers rows
    → new_user_ids (length rows) (users ++ numbered next rows)
      ≡ map (λ u. u.0) (sort_by id_desc (numbered next rows))
unfolding new_user_ids
new_user_ids-append next rows users old load =
    let new = sort_by id_desc (numbered next rows) in
    let (rest, sorted) =
      sort_by-newer next (select is_load_user users) (numbered next rows)
        (select_older next users old)
        (All-sort_by id_desc (λ u. next ≤ u.0) (numbered next rows)
          (numbered_from next next rows (omega arith))) in
    let size : length new ≡ length rows =
      length-sort_by (numbered next rows) ∙ length-numbered next rows in
    rw
      (
        select-append is_load_user users (numbered next rows),
        select_load next rows load,
        sorted,
        sym size,
      )
      (ap (map (λ u. u.0)) (take_all new rest))

contains-insert_by :
    (i : ℕ) (x : ℕ × UserRow) (xs : Dict ℕ UserRow)
    → contains i (keys (insert_by id_desc x xs)) ≡ contains i (keys (x ∷ xs))
unfolding insert_by contains
contains-insert_by i x [] = refl
contains-insert_by i x (y ∷ ys) = ground (arith, contains-insert_by i x ys)

contains-sort_by :
    (i : ℕ) (xs : Dict ℕ UserRow) → contains i (keys (sort_by id_desc xs)) ≡ contains i (keys xs)
unfolding sort_by contains
contains-sort_by i [] = refl
contains-sort_by i (x ∷ xs) =
    contains-insert_by i x (sort_by id_desc xs) ∙ ground (arith, contains-sort_by i xs)

contains-numbered :
    (i next : ℕ) (rows : List UserRow)
    → contains i (keys (numbered next rows)) ≡ (leb next i && ltb i (next + length rows))
unfolding contains
contains-numbered i next [] = ground arith
contains-numbered i next (row ∷ rows) =
    ground
      (arith, contains-numbered i (suc next) rows, nat_key.test_iff next i, nat_key.test_iff i next)

-- the ids are those that the sequence gave to the batch
pub contains-new_ids :
    (i next : ℕ) (rows : List UserRow)
    → contains i (map (λ u. u.0) (sort_by id_desc (numbered next rows)))
      ≡ (leb next i && ltb i (next + length rows))
contains-new_ids i next rows =
    contains-sort_by i (numbered next rows) ∙ contains-numbered i next rows
