-- ===== src/Database/ByKey.antt =====
-- Tables with a serial id and a unique text column.
use rust_microservices_archi.Prelude.{
  ℕ, ◌+◌, ◌≡◌, refl, String, Bool, true, false, not, ◌&&◌, Option, none, some, List, [], ◌∷◌, ◌++◌,
  any, keep, ◌==◌, eq_iff, arith,
}
use rust_microservices_archi.Database.{SqlxError, Table, insert_row, delete_rows, update_rows}
use rust_microservices_archi.Database.ById.{
  AllBelow, AllBelow-weaken, AllBelow-insert, AllBelow-delete, AllBelow-update,
}

module _ {A : Type 0} (key : A → String) where
  abbrev pub has_key : String → List A → Bool
  has_key k xs = any (λ a. key a == k) xs

  -- No two rows have the same key.
  abbrev pub unique : List A → Bool
  unique [] = true
  unique (x ∷ xs) = not (has_key (key x) xs) && unique xs

  has_key-insert :
      (k : String) (y : A) (xs : List A)
      → has_key k xs ≡ false
      → (key y == k) ≡ false
      → has_key k (xs ++ y ∷ []) ≡ false
  has_key-insert k y [] h other = ground arith
  has_key-insert k y (x ∷ xs) h other = ground (arith, has_key-insert k y xs)

  unique-insert :
      (y : A) (xs : List A)
      → unique xs ≡ true
      → has_key (key y) xs ≡ false
      → unique (xs ++ y ∷ []) ≡ true
  unique-insert y [] h fresh = refl
  unique-insert y (x ∷ xs) h fresh = ground (
    arith,
    unique-insert y xs,
    has_key-insert (key x) y xs,
    eq_iff (key x) (key y),
    eq_iff (key y) (key x),
  )

  has_key-keep :
      (p : A → Bool) (k : String) (xs : List A)
      → has_key k xs ≡ false
      → has_key k (keep p xs) ≡ false
  has_key-keep p k [] h = refl
  has_key-keep p k (x ∷ xs) h = ground (arith, has_key-keep p k xs)

  unique-keep : (p : A → Bool) (xs : List A) → unique xs ≡ true → unique (keep p xs) ≡ true
  unique-keep p [] h = refl
  unique-keep p (x ∷ xs) h = ground (arith, unique-keep p xs, has_key-keep p (key x) xs)

  has_key-update :
      (p : A → Bool) (g : A → A) (k : String) (xs : List A)
      → ((a : A) → key (g a) ≡ key a)
      → has_key k (update_rows p g xs) ≡ has_key k xs
  has_key-update p g k [] same = refl
  has_key-update p g k (x ∷ xs) same = ground (arith, same x, has_key-update p g k xs same)

  unique-update :
      (p : A → Bool) (g : A → A) (xs : List A)
      → ((a : A) → key (g a) ≡ key a)
      → unique (update_rows p g xs) ≡ unique xs
  unique-update p g [] same = refl
  unique-update p g (x ∷ xs) same = ground (
    arith,
    same x,
    unique-update p g xs same,
    has_key-update p g (key x) xs same,
    has_key-update p g (key (g x)) xs same,
  )

  module _ (ident : A → ℕ) where
    -- The ids are below the counter, and no two rows have the same key.
    pub record IsKeyed (t : Table A) : Type 0 where
      pub below : AllBelow ident t.next_id t.rows
      pub distinct : unique t.rows ≡ true

    pub insert_row-IsKeyed :
        (refusal : Option SqlxError) (row : ℕ → A) (t : Table A)
        → ident (row t.next_id) ≡ t.next_id
        → (refusal ≡ none → has_key (key (row t.next_id)) t.rows ≡ false)
        → IsKeyed t
        → IsKeyed (insert_row refusal row t).1
    unfolding insert_row
    insert_row-IsKeyed none row t numbered fresh h = record {
      below =
          AllBelow-insert ident (t.next_id + 1) (row t.next_id) t.rows
            (AllBelow-weaken ident t.next_id (t.next_id + 1) t.rows (omega arith) h.below)
            (omega (arith, numbered));
      distinct = unique-insert (row t.next_id) t.rows h.distinct (fresh refl);
    }
    insert_row-IsKeyed (some e) row t numbered fresh h = record {
      below = AllBelow-weaken ident t.next_id (t.next_id + 1) t.rows (omega arith) h.below;
      distinct = h.distinct;
    }

    pub delete_rows-IsKeyed : (p : A → Bool) (t : Table A) → IsKeyed t → IsKeyed (delete_rows p t).1
    unfolding delete_rows
    delete_rows-IsKeyed p t h = record {
      below = AllBelow-delete ident t.next_id _ t.rows h.below;
      distinct = unique-keep _ t.rows h.distinct;
    }

    pub update_rows-IsKeyed :
        (p : A → Bool) (g : A → A) (t : Table A)
        → ((a : A) → ident (g a) ≡ ident a)
        → ((a : A) → key (g a) ≡ key a)
        → IsKeyed t
        → IsKeyed (record t { rows = update_rows p g t.rows })
    update_rows-IsKeyed p g t same_id same_key h = record {
      below = AllBelow-update ident t.next_id p g t.rows same_id h.below;
      distinct = rw (unique-update p g t.rows same_key) h.distinct;
    }
