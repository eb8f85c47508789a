-- ===== src/Seed/Picks.antt =====
-- The watchlist rows of the load users, against the table's primary key.
use ticker_watch_case_study.Base.{
  ℕ, zero, suc, ◌+◌, ◌≤◌, ◌≡◌, refl, Bool, false, ◌&&◌, List, [], ◌∷◌, ◌++◌, arith, map, Distinct,
  contains, count_if, length, take, nat_key, ◌==◌, if◌then◌else◌,
}
use ticker_watch_case_study.Base.Dict.{keys, dict_of, dict_of-Distinct}
use ticker_watch_case_study.Watchlists.{Items, is_item}
use ticker_watch_case_study.Seed.{items_per_user, oversample, picks, item_records}

-- the rows of a watchlist
abbrev pub on_list : ℕ → ℕ × ℕ → Bool
on_list watchlist_id item = item.0 == watchlist_id

contains-take : (s n : ℕ) (xs : List ℕ) → contains s xs ≡ false → contains s (take n xs) ≡ false
unfolding contains
contains-take s zero xs h = refl
contains-take s (suc n) [] h = refl
contains-take s (suc n) (x ∷ xs) h = ground (arith, contains-take s n xs, h)

take-Distinct : (n : ℕ) (xs : List ℕ) → Distinct xs → Distinct (take n xs)
take-Distinct zero xs h = tt
take-Distinct (suc n) [] h = tt
take-Distinct (suc n) (x ∷ xs) h = (contains-take x n xs h.0, take-Distinct n xs h.1)

length-take : {A : Type 0} (n : ℕ) (xs : List A) → length (take n xs) ≤ n
length-take zero xs = omega arith
length-take (suc n) [] = omega arith
length-take (suc n) (x ∷ xs) = omega (arith, length-take n xs)

picks-Distinct : (drawn : List ℕ) → Distinct (picks drawn)
unfolding picks
picks-Distinct drawn =
    take-Distinct items_per_user (keys (dict_of (map (λ s. (s, tt {0})) drawn) []))
      (dict_of-Distinct (map (λ s. (s, tt {0})) drawn) [] tt)

length-picks : (drawn : List ℕ) → length (picks drawn) ≤ items_per_user
unfolding picks
length-picks drawn = length-take items_per_user (keys (dict_of (map (λ s. (s, tt {0})) drawn) []))

pub count_if-append :
    {A : Type 0} (test : A → Bool) (xs ys : List A)
    → count_if test (xs ++ ys) ≡ count_if test xs + count_if test ys
unfolding count_if
count_if-append test [] ys = omega arith
count_if-append test (x ∷ xs) ys = omega (arith, count_if-append test xs ys)

-- one watchlist's rows: those of a security, and all of them
count_item :
    (v w s : ℕ) (ids : List ℕ)
    → Distinct ids
    → count_if (is_item w s) (map (λ i. (v, i)) ids) ≡ (if v == w && contains s ids then 1 else 0)
unfolding count_if is_item contains
count_item v w s [] h = ground arith
count_item v w s (i ∷ ids) h =
    ground (arith, count_item v w s ids h.1, h.0, nat_key.test_iff i s, nat_key.test_iff v w)

count_list :
    (v w : ℕ) (ids : List ℕ)
    → count_if (on_list w) (map (λ i. (v, i)) ids) ≡ (if v == w then length ids else 0)
unfolding count_if
count_list v w [] = ground arith
count_list v w (i ∷ ids) = ground (arith, count_list v w ids)

module _ {G : Type 0} (choices : ℕ → G → List ℕ × G) where
  counts :
      (w s : ℕ) (watchlist_ids : List ℕ) (rng : G)
      → Distinct watchlist_ids
      → let items = item_records choices watchlist_ids rng in
        (count_if (is_item w s) items ≤ (if contains w watchlist_ids then 1 else 0))
        × (count_if (on_list w) items ≤ (if contains w watchlist_ids then items_per_user else 0))
  unfolding item_records contains count_if
  counts w s [] rng h = (omega arith, omega arith)
  counts w s (v ∷ watchlist_ids) rng h =
      let (drawn, rng') = choices (items_per_user + oversample) rng in
      let rest = item_records choices watchlist_ids rng' in
      let mine : Items = map (λ i. (v, i)) (picks drawn) in
      let (pairs, rows) = counts w s watchlist_ids rng' h.1 in
      ground (
        arith,
        pairs,
        rows,
        count_if-append (is_item w s) mine rest,
        count_if-append (on_list w) mine rest,
        count_item v w s (picks drawn) (picks-Distinct drawn),
        count_list v w (picks drawn),
        length-picks drawn,
        h.0,
        nat_key.test_iff v w,
      )

  -- For different watchlists, and whatever the generator draws, the rows that are copied hold no
  -- security twice on a watchlist, as the table's primary key wants, and at most ten on each.
  pub item_records-counts :
      (w s : ℕ) (watchlist_ids : List ℕ) (rng : G)
      → Distinct watchlist_ids
      → (count_if (is_item w s) (item_records choices watchlist_ids rng) ≤ 1)
        × (count_if (on_list w) (item_records choices watchlist_ids rng) ≤ items_per_user)
  item_records-counts w s watchlist_ids rng h =
      let (pairs, rows) = counts w s watchlist_ids rng h in ground (arith, pairs, rows)
