-- ===== src/Time/Fields.antt =====
-- The seven fields of a timestamp as one text, and the number that it compares as.
use ticker_watch_case_study.Base.{
  ℕ, ◌+◌, ◌*◌, ◌≤◌, ◌<◌, ◌≡◌, refl, ◌∷◌, ◌++◌, arith, nat_beq, ltb, if◌then◌else◌,
}
use ticker_watch_case_study.Base.Text.{Text, text, text_lt}
use ticker_watch_case_study.Time.Digits.{pad, Fits, text_lt-pad}

-- Two texts that agree so far compare as the numbers that they spell.
abbrev pub Compares : Text → Text → ℕ → ℕ → Type 0
Compares s s' k k' = text_lt s s' ≡ ltb k k'

mul_gap : (m a b : ℕ) → a < b → a * m + m ≤ b * m
mul_gap m a b h = grind arith

high_digit :
    (m a b k k' : ℕ)
    → k < m
    → k' < m
    → (if nat_beq a b then ltb k k' else ltb a b) ≡ ltb (a * m + k) (b * m + k')
high_digit m a b k k' l l' = ground (arith, mul_gap m a b, mul_gap m b a)

-- A field of `w` digits before rests that spell less than `m`.
field :
    (w m a b k k' : ℕ) (s s' : Text)
    → Fits w a
    → Fits w b
    → k < m
    → k' < m
    → Compares s s' k k'
    → Compares (pad w a ++ s) (pad w b ++ s') (a * m + k) (b * m + k')
field w m a b k k' s s' fa fb l l' c =
    rw (text_lt-pad w a b s s' fa fb, c) (high_digit m a b k k' l l')

-- A field and the separator behind it.
part :
    (w m c a b k k' : ℕ) (s s' : Text)
    → Fits w a
    → Fits w b
    → k < m
    → k' < m
    → Compares s s' k k'
    → Compares (pad w a ++ c ∷ s) (pad w b ++ c ∷ s') (a * m + k) (b * m + k')
part w m c a b k k' s s' fa fb l l' e =
    field w m a b k k' (c ∷ s) (c ∷ s') fa fb l l' (unfold text_lt in ground arith)

-- The seven fields with their separators.
unfoldable pub stamp : ℕ → ℕ → ℕ → ℕ → ℕ → ℕ → ℕ → Text
stamp y mo d h mi s us =
    pad 4 y
    ++ b'-'
      ∷ (pad 2 mo
          ++ b'-'
            ∷ (pad 2 d
                ++ b'T'
                  ∷ (pad 2 h
                      ++ b':' ∷ (pad 2 mi ++ b':' ∷ (pad 2 s ++ b'.' ∷ (pad 6 us ++ text "Z"))))))

unfoldable pub time_key : ℕ → ℕ → ℕ → ℕ → ℕ
time_key h mi s us = h * 3_600_000_000 + (mi * 60_000_000 + (s * 1_000_000 + (us * 1 + 0)))

unfoldable pub stamp_key : ℕ → ℕ → ℕ → ℕ → ℕ → ℕ → ℕ → ℕ
unfolding time_key
stamp_key y mo d h mi s us =
    y * 35_942_400_000_000 + (mo * 2_764_800_000_000 + (d * 86_400_000_000 + time_key h mi s us))

module _ (y mo d h mi s us y' mo' d' h' mi' s' us' : ℕ) (year : (y < 10000) × (y' < 10000))
    (month : (mo ≤ 12) × (mo' ≤ 12)) (day : (d ≤ 31) × (d' ≤ 31)) (hour : (h < 24) × (h' < 24))
    (minute : (mi < 60) × (mi' < 60)) (second : (s < 60) × (s' < 60))
    (micro : (us < 1_000_000) × (us' < 1_000_000)) where
  pub stamp_order :
      Compares
        (stamp y mo d h mi s us)
        (stamp y' mo' d' h' mi' s' us')
        (stamp_key y mo d h mi s us)
        (stamp_key y' mo' d' h' mi' s' us')
  unfolding stamp stamp_key
  stamp_order =
      part 4 35_942_400_000_000 b'-' y y' _ _ _ _ (omega arith) (omega arith) (omega arith)
        (omega arith)
        (part 2 2_764_800_000_000 b'-' mo mo' _ _ _ _ (omega arith) (omega arith) (omega arith)
          (omega arith)
          (part 2 86_400_000_000 b'T' d d' _ _ _ _ (omega arith) (omega arith) (omega arith)
            (omega arith) clock))
    where
      clock :
          Compares
            (pad 2 h ++ b':' ∷ (pad 2 mi ++ b':' ∷ (pad 2 s ++ b'.' ∷ (pad 6 us ++ text "Z"))))
            (pad 2 h' ++ b':' ∷ (pad 2 mi' ++ b':' ∷ (pad 2 s' ++ b'.' ∷ (pad 6 us' ++ text "Z"))))
            (time_key h mi s us)
            (time_key h' mi' s' us')
      clock =
          part 2 3_600_000_000 b':' h h' _ _ _ _ (omega arith) (omega arith) (omega arith)
            (omega arith)
            (part 2 60_000_000 b':' mi mi' _ _ _ _ (omega arith) (omega arith) (omega arith)
              (omega arith)
              (part 2 1_000_000 b'.' s s' _ _ _ _ (omega arith) (omega arith) (omega arith)
                (omega arith)
                (field 6 1 us us' 0 0 _ _ (omega arith) (omega arith) (omega arith) (omega arith)
                  (unfold text_lt in refl))))
