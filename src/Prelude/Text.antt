-- ===== src/Prelude/Text.antt =====
-- What the services use of Rust's `str`: whitespace splitting, prefixes and the part before a
-- character. A text is walked by code point, as `char` methods do.
use Prim.Native.Nat.{ℕ}
use Prim.Native.Char.{Char, code}
use Prim.Native.String.{String}
use mathlib.Core.Bool.{Bool, ◌||◌, ◌&&◌}
use mathlib.Core.Option.{Option, none, some}
use mathlib.Core.List.{List, [], ◌∷◌}
use rust_microservices_archi.Prelude.Tests.{leb, nat_eq, if◌then◌else◌}

-- `char::is_whitespace`: the code points with Unicode's property White_Space.
unfoldable pub is_whitespace : ℕ → Bool
is_whitespace c =
    (leb 9 c && leb c 13)
    || nat_eq c 32
    || nat_eq c 0x85
    || nat_eq c 0xa0
    || nat_eq c 0x1680
    || (leb 0x2000 c && leb c 0x200a)
    || nat_eq c 0x2028
    || nat_eq c 0x2029
    || nat_eq c 0x202f
    || nat_eq c 0x205f
    || nat_eq c 0x3000

-- A word in progress is closed when it is not empty.
abbrev pub close_word : Option String → List String → List String
close_word none rest = rest
close_word (some w) rest = w ∷ rest

abbrev pub open_word : Char → Option String → Option String
open_word c none = some (String.◌∷◌ c String.[])
open_word c (some w) = some (String.◌∷◌ c w)

-- The first word if the text begins inside one, and the words after it.
unfoldable pub words : String → Option String × List String
unfolding is_whitespace
words String.[] = (none, [])
words (String.◌∷◌ c s) =
    let (w, rest) = words s in
    if is_whitespace (code c) then (none, close_word w rest) else (open_word c w, rest)

-- `str::split_whitespace`.
unfoldable pub split_whitespace : String → List String
unfolding words
split_whitespace s = let (w, rest) = words s in close_word w rest

-- `str::strip_prefix`.
unfoldable pub strip_prefix : String → String → Option String
strip_prefix String.[] s = some s
strip_prefix (String.◌∷◌ p ps) String.[] = none
strip_prefix (String.◌∷◌ p ps) (String.◌∷◌ c s) =
    let rest = strip_prefix ps s in if nat_eq (code p) (code c) then rest else none

-- `s.split(c).next()`: the text before the first `c`; `split` yields at least one part.
unfoldable pub split_first : ℕ → String → String
split_first d String.[] = String.[]
split_first d (String.◌∷◌ c s) =
    let rest = split_first d s in if nat_eq (code c) d then String.[] else String.◌∷◌ c rest
