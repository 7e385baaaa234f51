-- ===== src/Json/Parsed.antt =====
-- The results of the functions of common/Json.cc that take `text` and `pos`.
use chat_service.Base.{Text}

-- `ok v rest` is `true` with the value written and `*pos` at `rest`; `err e` is `false` with
-- `*error = e`. `out_of_fuel` is neither: the stack of the thread cannot hold the recursion of
-- Json/Values.antt, which ends the process, or the fuel of the model is used up, which
-- Json/Totality.antt rules out.
pub data Parsed {ℓ} (A : Type ℓ) : Type ℓ where
  ok : A → Text → Parsed A
  err : Text → Parsed A
  out_of_fuel : Parsed A

infixl 5 ◌>>=◌
abbrev pub ◌>>=◌ {ℓ κ} : {A : Type ℓ} {B : Type κ} → Parsed A → (A → Text → Parsed B) → Parsed B
ok a rest >>= f = f a rest
err e >>= f = err e
out_of_fuel >>= f = out_of_fuel
