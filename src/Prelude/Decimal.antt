-- ===== src/Prelude/Decimal.antt =====
-- `strconv.Itoa` on a number that is not negative.
use Prim.Native.Nat.{ℕ, zero, suc, ◌/◌, ◌%◌}
use Prim.Native.String.{String, char_at, ◌++◌}
use rxdaemon.Prelude.Tests.{◌==◌, if◌then◌else◌}

abbrev digit : ℕ → String
digit d = String.◌∷◌ (char_at "0123456789" d) String.[]

-- The digits of `n`; `n` has fewer digits than `suc n`, so the fuel of `itoa` is enough.
unfoldable pub decimal : ℕ → ℕ → String
decimal zero n = String.[]
decimal (suc f) n =
    let rest = decimal f (n / 10) in if n / 10 == 0 then digit (n % 10) else rest ++ digit (n % 10)

unfoldable pub itoa : ℕ → String
unfolding decimal
itoa n = decimal (suc n) n
