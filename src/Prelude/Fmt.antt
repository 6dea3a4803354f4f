-- ===== src/Prelude/Fmt.antt =====
-- Text that Go's fmt, strings and unicode/utf8 packages make or test: `%d` of an int64,
-- `strings.TrimSpace(s) == ""` and `utf8.RuneCountInString`.
use Prim.Native.Nat.{ℕ, zero, suc, ◌-◌, ◌/◌, ◌%◌}
use Prim.Native.Char.{code}
use Prim.Native.String.{String, count, ◌++◌ as append}
use mathlib.Core.Bool.{Bool, true, ◌&&◌, ◌||◌}
use mathlib.Core.List.{List, [], ◌∷◌}
use pace_poker.Prelude.Tests.{ltb, leb, ◌==◌, if◌then◌else◌}
use pace_poker.Prelude.Lists.{get_or}
use pace_poker.Prelude.Words.{Int64, m64, h64}

-- Concatenation of texts.
infixr 65 ◌<>◌
abbrev pub ◌<>◌ : String → String → String
s <> t = append s t

abbrev digit_names : List String
digit_names = "0" ∷ "1" ∷ "2" ∷ "3" ∷ "4" ∷ "5" ∷ "6" ∷ "7" ∷ "8" ∷ "9" ∷ []

-- Twenty digits are enough for every number below 2 ^ 64.
decimal : ℕ → ℕ → String → String
decimal zero n rest = rest
decimal (suc fuel) n rest =
    let text = get_or digit_names (n % 10) "" <> rest in
    let more = decimal fuel (n / 10) text in if ltb n 10 then text else more

-- `%d` of an int64.
unfoldable pub show64 : Int64 → String
unfolding decimal
show64 x = if ltb x h64 then decimal 20 x "" else "-" <> decimal 20 (m64 - x) ""

-- `unicode.IsSpace`.
abbrev pub is_space : ℕ → Bool
is_space c =
    (leb 9 c && leb c 13)
    || c == 32
    || c == 0x85
    || c == 0xa0
    || c == 0x1680
    || (leb 0x2000 c && leb c 0x200a)
    || c == 0x2028
    || c == 0x2029
    || c == 0x202f
    || c == 0x205f
    || c == 0x3000

-- `strings.TrimSpace(s) == ""`: nothing but spaces.
abbrev pub trims_to_empty : String → Bool
trims_to_empty String.[] = true
trims_to_empty (String.◌∷◌ c s) = is_space (code c) && trims_to_empty s

-- `utf8.RuneCountInString`.
abbrev pub rune_count : String → ℕ
rune_count s = count s
