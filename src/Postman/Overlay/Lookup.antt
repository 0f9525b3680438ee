-- ===== src/Postman/Overlay/Lookup.antt =====
-- Looking up a key of the maps of postman/generator/src/main.rs after an insertion.
use mathlib.Core.Option.{some-injective}
use rust_microservices_archi.Prelude.{
  ◌≡◌, ◌≢◌, sym, ◌∙◌, ap, ◌⊎◌, inl, inr, String, false, some, [], ◌∷◌, ◌==◌, eq_iff, eq_refl,
  Bool-cases, if◌then◌else◌, arith,
}
use rust_microservices_archi.Postman.Overlay.{HashMap, find_key, without_key, put}

module _ {A : Type 0} where
  find_key-without :
      (k j : String) (map : HashMap A)
      → (k == j) ≡ false
      → find_key j (without_key k map) ≡ find_key j map
  find_key-without k j [] h = ground arith
  find_key-without k j ((i, b) ∷ rest) h = elim (Bool-cases (i == k)) [
    | inl same ↦ ground (arith, find_key-without k j rest h, eq_iff i k)
    | inr other ↦ ground (arith, find_key-without k j rest h)
  ]

  -- What a key finds after `insert`.
  pub find_key-put :
      (k j : String) (a : A) (map : HashMap A)
      → find_key j (put k a map) ≡ (if k == j then some a else find_key j map)
  find_key-put k j a map = elim (Bool-cases (k == j)) [
    | inl same ↦ ground arith
    | inr other ↦ ground (arith, find_key-without k j map other)
  ]

  -- A found entry is the one just inserted or one from before.
  pub find_key-put_cases :
      (k j : String) (a b : A) (map : HashMap A)
      → find_key j (put k a map) ≡ some b
      → ((k ≡ j) × (a ≡ b)) ⊎ (find_key j map ≡ some b)
  find_key-put_cases k j a b map e = elim (Bool-cases (k == j)) [
    | inl same ↦ inl (
      (eq_iff k j).0 same,
      some-injective _ _ (
          ap (λ t. if t then some a else find_key j map) (sym same)
          ∙ sym (find_key-put k j a map)
          ∙ e),
    )
    | inr other ↦ inr (
        ap (λ t. if t then some a else find_key j map) (sym other)
        ∙ sym (find_key-put k j a map)
        ∙ e)
  ]

  -- Another key finds what it found.
  pub find_key-put_other :
      (k j : String) (a : A) (map : HashMap A) → k ≢ j → find_key j (put k a map) ≡ find_key j map
  find_key-put_other k j a map other = elim (Bool-cases (k == j)) [
    | inl same ↦ absurd (other ((eq_iff k j).0 same))
    | inr differs ↦ find_key-put k j a map ∙ ap (λ t. if t then some a else find_key j map) differs
  ]

  pub find_key-put_same : (k : String) (a : A) (map : HashMap A) → find_key k (put k a map) ≡ some a
  find_key-put_same k a map =
      find_key-put k k a map ∙ ap (λ t. if t then some a else find_key k map) (eq_refl k)
