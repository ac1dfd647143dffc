-- ===== src/Base/Text.antt =====
-- Rust's `str` operations that the source uses, over the native text.
use Prim.Native.Char.{code}
use Prim.Native.Nat.{◌+◌, ℕ, zero, suc, ◌/◌, ◌%◌}
use Prim.Native.String.{String}
pub use Prim.Native.String.{String}
pub use Prim.Native.String.{◌++◌ as append}
pub use text.Mathlib.Text.{◌==◌ as str_eq}
pub use text.Mathlib.TextEquality.{eq_iff}
use mathlib.Core.Bool.{Bool, true, false, ◌&&◌, ◌||◌, ◌||◌}
use mathlib.Core.List.{List, [], ◌∷◌}
use noire.Base.Tests.{ltb, leb, ◌==◌, if◌then◌else◌}

-- `char::is_whitespace`: Unicode's White_Space.
abbrev pub is_whitespace : ℕ → Bool
is_whitespace c =
    leb 9 c && leb c 13
    || c == 0x20
    || c == 0x85
    || c == 0xa0
    || c == 0x1680
    || leb 0x2000 c && leb c 0x200a
    || c == 0x2028
    || c == 0x2029
    || c == 0x202f
    || c == 0x205f
    || c == 0x3000

-- `text.trim().is_empty()`.
abbrev pub is_blank : String → Bool
is_blank String.[] = true
is_blank (String.◌∷◌ c s) = is_whitespace (code c) && is_blank s

abbrev pub is_empty : String → Bool
is_empty String.[] = true
is_empty (String.◌∷◌ c s) = false

abbrev pub digit : ℕ → String
digit d =
    if d == 0
    then "0"
    else if d == 1
    then "1"
    else if d == 2
    then "2"
    else if d == 3
    then "3"
    else if d == 4
    then "4"
    else if d == 5
    then "5"
    else if d == 6
    then "6"
    else if d == 7
    then "7"
    else if d == 8
    then "8"
    else "9"

-- The decimal digits of a number below 10 ^ fuel, as `Display` prints it.
unfoldable pub decimal : ℕ → ℕ → String
decimal zero n = ""
decimal (suc fuel) n =
    let front = decimal fuel (n / 10) in if ltb n 10 then digit n else append front (digit (n % 10))

-- The characters of `to_ascii_lowercase`.
unfoldable pub lower_codes : String → List ℕ
lower_codes String.[] = []
lower_codes (String.◌∷◌ c s) =
    (if leb 65 (code c) && leb (code c) 90 then code c + 32 else code c) ∷ lower_codes s

unfoldable pub starts_with : List ℕ → List ℕ → Bool
starts_with [] ys = true
starts_with (x ∷ xs) [] = false
starts_with (x ∷ xs) (y ∷ ys) = x == y && starts_with xs ys

unfoldable pub contains : List ℕ → List ℕ → Bool
unfolding starts_with
contains xs [] = starts_with xs []
contains xs (y ∷ ys) = starts_with xs (y ∷ ys) || contains xs ys

abbrev codes_eq : List ℕ → List ℕ → Bool
codes_eq [] [] = true
codes_eq (x ∷ xs) (y ∷ ys) = x == y && codes_eq xs ys
codes_eq _ _ = false

unfoldable pub ends_with : List ℕ → List ℕ → Bool
ends_with xs [] = codes_eq xs []
ends_with xs (y ∷ ys) = codes_eq xs (y ∷ ys) || ends_with xs ys
