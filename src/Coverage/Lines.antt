-- ===== src/Coverage/Lines.antt =====
-- What the coverage tool uses of Rust's texts: the lines of an output, padding and repetition.
use rust_microservices_archi.Prelude.{
  ℕ, zero, suc, ◌-◌, String, ◌<>◌, Option, none, some, List, [], ◌∷◌, ◌==◌, get_or, if◌then◌else◌,
}
use rust_microservices_archi.Postman.Text.{split, strip_suffix, size}

-- `text.lines()`: a line ends at `\n`, which may stand after `\r`; an empty end is no line.
unfoldable pub ended : String → String
unfolding strip_suffix
ended l = get_or l (strip_suffix 13 l)

unfoldable pub lines_of : List String → List String
unfolding ended
lines_of [] = []
lines_of (last ∷ []) = if last == "" then [] else last ∷ []
lines_of (l ∷ m ∷ rest) = ended l ∷ lines_of (m ∷ rest)

unfoldable pub lines : String → List String
unfolding split lines_of
lines s = lines_of (split 10 s)

-- `iter().find_map(f)` on the reversed list.
abbrev pub or_else {ℓ} : {A : Type ℓ} → Option A → Option A → Option A
or_else none o = o
or_else (some a) o = some a

unfoldable pub find_last_map : {A B : Type 0} → (A → Option B) → List A → Option B
find_last_map f [] = none
find_last_map f (x ∷ xs) = or_else (find_last_map f xs) (f x)

-- `text.repeat(n)`, and the paddings `{:>w}` and `{:<w}`.
unfoldable pub repeat : String → ℕ → String
repeat s zero = ""
repeat s (suc n) = s <> repeat s n

unfoldable pub pad_left : ℕ → String → String
unfolding repeat
pad_left w s = repeat " " (w - size s) <> s

unfoldable pub pad_right : ℕ → String → String
unfolding repeat
pad_right w s = s <> repeat " " (w - size s)
