-- ===== src/Base/Result.antt =====
-- Python exceptions as values, by the classes that some handler of the program tells apart.
use mathlib.Core.Logic.{◌⊎◌, inl, inr}
use mathlib.Core.Path.{◌≡◌, refl}

pub data Error : Type 0 where
  http_error redis_error postgres_error interface_error os_error : Error
  value_error key_error runtime_error : Error
  security_not_found not_on_watchlist : Error

pub data Result {ℓ} (A : Type ℓ) : Type ℓ where
  ok : A → Result A
  raised : Error → Result A

infixl 5 ◌>>=◌ ◌>>◌
abbrev pub ◌>>=◌ {ℓ κ} : {A : Type ℓ} {B : Type κ} → Result A → (A → Result B) → Result B
ok a >>= f = f a
raised e >>= f = raised e

abbrev pub ◌>>◌ {ℓ} : {B : Type ℓ} → Result (Unit {0}) → Result B → Result B
m >> k = m >>= λ _. k

-- What becomes of one statement that is sent to Postgres: it is executed, it is refused, or it is
-- executed and the answer is lost.
pub data Fate : Type 0 where
  done : Fate
  refused lost : Error → Fate

-- a query, which changes nothing
unfoldable pub answer {ℓ} : {A : Type ℓ} → Fate → A → Result A
answer done a = ok a
answer (refused e) a = raised e
answer (lost e) a = raised e

-- a statement that changes the table: its answer, and the table that it leaves
unfoldable pub execute {ℓ κ} : {A : Type ℓ} {T : Type κ} → Fate → T → A × T → Result A × T
execute done before (a, after) = (ok a, after)
execute (refused e) before (a, after) = (raised e, before)
execute (lost e) before (a, after) = (raised e, after)

pub Result-cases {ℓ} :
    {A : Type ℓ} (r : Result A) → ((a : A) × (r ≡ ok a)) ⊎ ((e : Error) × (r ≡ raised e))
Result-cases (ok a) = inl (a, refl)
Result-cases (raised e) = inr (e, refl)

-- what a coroutine that returns nothing comes to
abbrev pub Outcome : Type 0
Outcome = Result (Unit {0})
