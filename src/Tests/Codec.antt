-- ===== src/Tests/Codec.antt =====
-- A printer and a reader of JSON values and numbers that satisfy what the theorems assume of the
-- libraries: a value is written in postfix form and read with a stack.
use Prim.Native.Char.{Char, code}
use rust_microservices_archi.Prelude.{
  ℕ, zero, suc, ◌≡◌, refl, ap, Bool, true, false, String, Option, none, some, List, [], ◌∷◌, nat_eq,
  if◌then◌else◌,
}
use rust_microservices_archi.Json.{
  Json, Items, Fields, null, num, str, arr, obj, nil, cons, end, field,
}

-- What the reader has on its stack.
pub data Part : Type 0 where
  value : Json → Part
  items : Items → Part
  fields : Fields → Part

abbrev increment : List Part → List Part
increment (value (num n) ∷ st) = value (num (suc n)) ∷ st
increment st = st

abbrev prepend : Char → List Part → List Part
prepend x (value (str s) ∷ st) = value (str (String.◌∷◌ x s)) ∷ st
prepend x st = st

abbrev close_item : List Part → List Part
close_item (value v ∷ items vs ∷ st) = items (cons v vs) ∷ st
close_item st = st

abbrev close_field : List Part → List Part
close_field (value (str k) ∷ value v ∷ fields fs ∷ st) = fields (field k v fs) ∷ st
close_field st = st

abbrev close_array : List Part → List Part
close_array (items vs ∷ st) = value (arr vs) ∷ st
close_array st = st

abbrev close_object : List Part → List Part
close_object (fields fs ∷ st) = value (obj fs) ∷ st
close_object st = st

-- What a character does to the stack.
abbrev act : ℕ → List Part → List Part
act c st =
    if nat_eq c b'n'
    then value null ∷ st
    else if nat_eq c b'0'
    then value (num 0) ∷ st
    else if nat_eq c b'+'
    then increment st
    else if nat_eq c b'"'
    then value (str "") ∷ st
    else if nat_eq c b'['
    then items nil ∷ st
    else if nat_eq c b','
    then close_item st
    else if nat_eq c b']'
    then close_array st
    else if nat_eq c b'{'
    then fields end ∷ st
    else if nat_eq c b':'
    then close_field st
    else if nat_eq c b'}'
    then close_object st
    else st

-- The reader; a character after a backslash belongs to a text.
abbrev read : String → Bool → List Part → List Part
read String.[] quoted st = st
read (String.◌∷◌ c s) true st = read s false (prepend c st)
read (String.◌∷◌ c s) false st =
    if nat_eq (code c) b'\\' then read s true st else read s false (act (code c) st)

-- A number, in front of another text.
abbrev write_number : ℕ → String → String
write_number zero r = String.◌∷◌ "0" r
write_number (suc n) r = write_number n (String.◌∷◌ "+" r)

abbrev write_text : String → String → String
write_text String.[] r = String.◌∷◌ "\"" r
write_text (String.◌∷◌ c s) r = write_text s (String.◌∷◌ "\\" (String.◌∷◌ c r))

-- The text of a value, in front of another text.
unfoldable mutual
  write : Json → String → String
  write null r = String.◌∷◌ "n" r
  write (num n) r = write_number n r
  write (str s) r = write_text s r
  write (arr vs) r = write_items vs (String.◌∷◌ "]" r)
  write (obj fs) r = write_fields fs (String.◌∷◌ "}" r)

  write_items : Items → String → String
  write_items nil r = String.◌∷◌ "[" r
  write_items (cons v vs) r = write_items vs (write v (String.◌∷◌ "," r))

  write_fields : Fields → String → String
  write_fields end r = String.◌∷◌ "{" r
  write_fields (field k v fs) r = write_fields fs (write v (write_text k (String.◌∷◌ ":" r)))

read_number :
    (n : ℕ) (r : String) (st : List Part)
    → read (write_number n r) false st ≡ read r false (value (num n) ∷ st)
read_number zero r st = refl
read_number (suc n) r st = rw (read_number n) refl

read_text :
    (s r : String) (st : List Part)
    → read (write_text s r) false st ≡ read r false (value (str s) ∷ st)
read_text String.[] r st = refl
read_text (String.◌∷◌ c s) r st = rw (read_text s) refl

mutual
  unfolding write write_items write_fields

  read-write :
      (j : Json) (r : String) (st : List Part)
      → read (write j r) false st ≡ read r false (value j ∷ st)
  read-write null r st = refl
  read-write (num n) r st = read_number n r st
  read-write (str s) r st = read_text s r st
  read-write (arr vs) r st = rw (read-write_items vs) refl
  read-write (obj fs) r st = rw (read-write_fields fs) refl

  read-write_items :
      (vs : Items) (r : String) (st : List Part)
      → read (write_items vs r) false st ≡ read r false (items vs ∷ st)
  read-write_items nil r st = refl
  read-write_items (cons v vs) r st = rw (read-write_items vs, read-write v) refl

  read-write_fields :
      (fs : Fields) (r : String) (st : List Part)
      → read (write_fields fs r) false st ≡ read r false (fields fs ∷ st)
  read-write_fields end r st = refl
  read-write_fields (field k v fs) r st = rw (read-write_fields fs, read-write v, read_text k) refl

unfoldable pub print_json : Json → String
unfolding write
print_json j = write j ""

abbrev top : List Part → Option Json
top (value j ∷ st) = some j
top st = none

unfoldable pub parse_json : String → Option Json
parse_json s = top (read s false [])

pub parse-print_json : (j : Json) → parse_json (print_json j) ≡ some j
unfolding print_json parse_json
parse-print_json j = rw (read-write j) refl

-- A number in unary.
abbrev pub show_id : ℕ → String
show_id zero = ""
show_id (suc n) = String.◌∷◌ "+" (show_id n)

abbrev tail : String → String
tail String.[] = ""
tail (String.◌∷◌ c s) = s

pub show_id-injective : (i j : ℕ) → show_id i ≡ show_id j → i ≡ j
show_id-injective zero zero h = refl
show_id-injective zero (suc j) h = cc
show_id-injective (suc i) zero h = cc
show_id-injective (suc i) (suc j) h = ap suc (show_id-injective i j (ap tail h))
