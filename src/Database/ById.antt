-- ===== src/Database/ById.antt =====
-- Rows under a numeric key: what the selection by key sees after an insertion, an update and a
-- deletion by key.
use rust_microservices_archi.Prelude.{
  ℕ, ◌<◌, ◌≡◌, refl, Bool, not, Option, none, some, List, [], ◌∷◌, ◌++◌, find, keep, length, nat_eq,
  All, if◌then◌else◌, arith,
}
use rust_microservices_archi.Database.{update_rows}

module _ {A : Type 0} (f : A → ℕ) where
  abbrev pub by : ℕ → A → Bool
  by i a = nat_eq (f a) i

  -- Every key is below a bound.
  abbrev pub AllBelow : ℕ → List A → Type 0
  AllBelow n = All (λ a. f a < n)

  pub AllBelow-weaken : (m n : ℕ) (xs : List A) → m < n → AllBelow m xs → AllBelow n xs
  AllBelow-weaken m n [] lt h = tt
  AllBelow-weaken m n (x ∷ xs) lt h = ground (arith, AllBelow-weaken m n xs lt h.1)

  pub find-fresh : (n : ℕ) (xs : List A) → AllBelow n xs → find (by n) xs ≡ none
  find-fresh n [] h = refl
  find-fresh n (x ∷ xs) h = ground (arith, find-fresh n xs h.1)

  -- An inserted row has a key above the others.
  pub find-insert :
      (j : ℕ) (y : A) (xs : List A)
      → AllBelow (f y) xs
      → find (by j) (xs ++ y ∷ []) ≡ (if nat_eq (f y) j then some y else find (by j) xs)
  find-insert j y [] h = refl
  find-insert j y (x ∷ xs) h = ground (arith, find-insert j y xs h.1)

  pub find-delete :
      (i j : ℕ) (xs : List A)
      → find (by j) (keep (λ a. not (by i a)) xs) ≡ (if nat_eq i j then none else find (by j) xs)
  find-delete i j [] = ground arith
  find-delete i j (x ∷ xs) = ground (arith, find-delete i j xs)

  abbrev pub map_option : (A → A) → Option A → Option A
  map_option g none = none
  map_option g (some a) = some (g a)

  pub find-update :
      (g : A → A) (i j : ℕ) (xs : List A)
      → ((a : A) → f (g a) ≡ f a)
      → find (by j) (update_rows (by i) g xs)
        ≡ (if nat_eq i j then map_option g (find (by j) xs) else find (by j) xs)
  find-update g i j [] same = ground arith
  find-update g i j (x ∷ xs) same = ground (arith, same x, find-update g i j xs same)

  pub AllBelow-insert :
      (n : ℕ) (y : A) (xs : List A) → AllBelow n xs → f y < n → AllBelow n (xs ++ y ∷ [])
  AllBelow-insert n y [] h lt = (lt, tt)
  AllBelow-insert n y (x ∷ xs) h lt = (h.0, AllBelow-insert n y xs h.1 lt)

  pub AllBelow-delete :
      (n : ℕ) (p : A → Bool) (xs : List A) → AllBelow n xs → AllBelow n (keep p xs)
  AllBelow-delete n p [] h = tt
  AllBelow-delete n p (x ∷ xs) h = ground (arith, AllBelow-delete n p xs h.1)

  pub AllBelow-update :
      (n : ℕ) (p : A → Bool) (g : A → A) (xs : List A)
      → ((a : A) → f (g a) ≡ f a)
      → AllBelow n xs
      → AllBelow n (update_rows p g xs)
  AllBelow-update n p g [] same h = tt
  AllBelow-update n p g (x ∷ xs) same h = ground (arith, same x, AllBelow-update n p g xs same h.1)

  -- An update or a deletion that finds no row changes none.
  pub update-missing :
      (g : A → A) (i : ℕ) (xs : List A) → find (by i) xs ≡ none → update_rows (by i) g xs ≡ xs
  update-missing g i [] h = refl
  update-missing g i (x ∷ xs) h = ground (arith, update-missing g i xs)

  pub delete-missing :
      (i : ℕ) (xs : List A) → length (keep (by i) xs) ≡ 0 → keep (λ a. not (by i a)) xs ≡ xs
  delete-missing i [] h = refl
  delete-missing i (x ∷ xs) h = ground (arith, delete-missing i xs)

  pub find-update-none :
      (g : A → A) (i : ℕ) (xs : List A)
      → ((a : A) → f (g a) ≡ f a)
      → find (by i) (update_rows (by i) g xs) ≡ none
      → find (by i) xs ≡ none
  find-update-none g i [] same h = refl
  find-update-none g i (x ∷ xs) same h = ground (arith, same x, find-update-none g i xs same)
