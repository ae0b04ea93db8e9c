-- ===== src/Prelude/Text.antt =====
-- `format!`: a message is the concatenation of its pieces, numbers in decimal.
use Prim.Native.Nat.{ℕ, zero, suc, ◌/◌, ◌%◌}
use Prim.Native.String.{String, ◌++◌}
use mathlib.Core.List.{List, [], ◌∷◌}
use hymenium.Prelude.Tests.{ltb, if◌then◌else◌}

pub format : List String → String
format [] = ""
format (s ∷ rest) = s ++ format rest

-- `join` of a slice of strings.
pub join : String → List String → String
join sep [] = ""
join sep (s ∷ []) = s
join sep (s ∷ t ∷ rest) = s ++ (sep ++ join sep (t ∷ rest))

digit : ℕ → String
digit zero = "0"
digit (suc zero) = "1"
digit (suc (suc zero)) = "2"
digit (suc (suc (suc zero))) = "3"
digit (suc (suc (suc (suc zero)))) = "4"
digit (suc (suc (suc (suc (suc zero))))) = "5"
digit (suc (suc (suc (suc (suc (suc zero)))))) = "6"
digit (suc (suc (suc (suc (suc (suc (suc zero))))))) = "7"
digit (suc (suc (suc (suc (suc (suc (suc (suc zero)))))))) = "8"
digit _ = "9"

digits_from : ℕ → ℕ → String
digits_from zero n = ""
digits_from (suc fuel) n =
    let more = digits_from fuel (n / 10) in if ltb n 10 then digit n else more ++ digit (n % 10)

-- A machine integer has at most 20 decimal digits.
pub decimal : ℕ → String
decimal n = digits_from 20 n
