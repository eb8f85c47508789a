-- ===== src/Base/Text.antt =====
-- Texts as lists of code points, with the order that string comparison uses.
use Prim.Native.Nat.{ℕ}
use Prim.Native.Char.{code}
use Prim.Native.String.{String}
use mathlib.Core.Path.{◌≡◌, refl, ap, ◌∙◌}
use native.Mathlib.Omega.{arith}
use mathlib.Core.Bool.{Bool, true, false, not, ◌&&◌, ◌||◌}
use mathlib.Core.List.{List, [], ◌∷◌, ◌++◌}
use ticker_watch_case_study.Base.Equality.{Hashable, nat_key, list_beq, list_beq_iff}
use ticker_watch_case_study.Base.Lists.{All}
use ticker_watch_case_study.Base.Tests.{ltb, leb, nat_beq, if◌then◌else◌}

abbrev pub Text : Type 0
Text = List ℕ

abbrev pub text : String → Text
text String.[] = []
text (String.◌∷◌ c s) = code c ∷ text s

instance abbrev pub text_key : Hashable Text
text_key = record { test = list_beq; test_iff = list_beq_iff }

-- `s < t` on strings: the first difference decides, and a proper prefix comes first
unfoldable pub text_lt : Text → Text → Bool
text_lt [] [] = false
text_lt [] (y ∷ ys) = true
text_lt (x ∷ xs) [] = false
text_lt (x ∷ xs) (y ∷ ys) = if nat_beq x y then text_lt xs ys else ltb x y

-- `s.startswith(p)`, with the prefix first
unfoldable pub starts_with : Text → Text → Bool
starts_with [] s = true
starts_with (p ∷ ps) [] = false
starts_with (p ∷ ps) (c ∷ s) = nat_beq p c && starts_with ps s

-- `p in s`, with the part first
unfoldable pub has_part : Text → Text → Bool
unfolding starts_with
has_part p [] = starts_with p []
has_part p (c ∷ s) = starts_with p (c ∷ s) || has_part p s

-- `sep.join(parts)`
unfoldable pub join : Text → List Text → Text
join sep [] = []
join sep (x ∷ []) = x
join sep (x ∷ y ∷ xs) = x ++ (sep ++ join sep (y ∷ xs))

-- what `str.isspace` calls a space
abbrev is_space : ℕ → Bool
is_space c =
    between 9 13
    || between 28 32
    || nat_beq c 133
    || nat_beq c 160
    || nat_beq c 5760
    || between 8192 8202
    || between 8232 8233
    || nat_beq c 8239
    || nat_beq c 8287
    || nat_beq c 12288
  where
    between : ℕ → ℕ → Bool
    between low high = leb low c && leb c high

unfoldable pub lstrip : Text → Text
lstrip [] = []
lstrip (c ∷ s) = let rest = lstrip s in if is_space c then rest else c ∷ s

-- a character before what is left of the text behind it
keep_before : ℕ → Text → Text
keep_before c [] = if is_space c then [] else c ∷ []
keep_before c (d ∷ s) = c ∷ d ∷ s

unfoldable pub rstrip : Text → Text
unfolding keep_before
rstrip [] = []
rstrip (c ∷ s) = keep_before c (rstrip s)

-- `s.strip()`
unfoldable pub strip : Text → Text
unfolding lstrip rstrip
strip s = rstrip (lstrip s)

push_front : ℕ → List Text → List Text
push_front c [] = (c ∷ []) ∷ []
push_front c (w ∷ ws) = (c ∷ w) ∷ ws

-- `s.split(sep)` for a separator of one character
unfoldable pub split : ℕ → Text → List Text
unfolding push_front
split sep [] = [] ∷ []
split sep (c ∷ s) = if nat_beq c sep then [] ∷ split sep s else push_front c (split sep s)

-- `sep not in s`
unfoldable pub lacks : ℕ → Text → Bool
lacks sep [] = true
lacks sep (c ∷ s) = not (nat_beq c sep) && lacks sep s

split-append :
    (sep : ℕ) (w rest : Text)
    → lacks sep w ≡ true
    → split sep (w ++ sep ∷ rest) ≡ w ∷ split sep rest
unfolding split lacks
split-append sep [] rest h = ground arith
split-append sep (c ∷ w) rest h = ground (arith, split-append sep w rest)

split-lacks : (sep : ℕ) (w : Text) → lacks sep w ≡ true → split sep w ≡ w ∷ []
unfolding split lacks
split-lacks sep [] h = refl
split-lacks sep (c ∷ w) h = ground (arith, split-lacks sep w)

-- A joined list is split into its words again.
pub split-join :
    (sep : ℕ) (w : Text) (ws : List Text)
    → All (λ v. lacks sep v ≡ true) (w ∷ ws)
    → split sep (join (sep ∷ []) (w ∷ ws)) ≡ w ∷ ws
unfolding join
split-join sep w [] h = split-lacks sep w h.0
split-join sep w (v ∷ ws) h =
    split-append sep w (join (sep ∷ []) (v ∷ ws)) h.0 ∙ ap (◌∷◌ w) (split-join sep v ws h.1)
