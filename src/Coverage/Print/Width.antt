-- ===== src/Coverage/Print/Width.antt =====
-- The width of the bars of tools/coverage/src/main.rs.
use text.Mathlib.TextLemmas.{nil-append, cons-append}
use rust_microservices_archi.Prelude.{
  ℕ, zero, suc, ◌+◌, ◌-◌, ◌≤◌, ◌≡◌, refl, ◌∙◌, String, ◌<>◌, arith,
}
use rust_microservices_archi.Postman.Text.{size}
use rust_microservices_archi.Coverage.Types.{F64}
use rust_microservices_archi.Coverage.Lines.{repeat}
use rust_microservices_archi.Coverage.Print.{bar}

pub size-append : (s t : String) → size (s <> t) ≡ size s + size t
size-append String.[] t = rw (nil-append) (omega arith)
size-append (String.◌∷◌ c s) t = rw (cons-append) (omega (arith, size-append s t))

size-repeat : (s : String) (n : ℕ) → size s ≡ 1 → size (repeat s n) ≡ n
unfolding repeat
size-repeat s zero h = refl
size-repeat s (suc n) h = size-append s (repeat s n) ∙ omega (arith, h, size-repeat s n h)

bar-length :
    {W : Type 0} (f : F64 W) (percent : W)
    → size (bar f percent) ≡ f.fifths percent + (20 - f.fifths percent) + 2
unfolding bar
bar-length f percent =
    let n = f.fifths percent in
    omega (
      arith,
      size-append "[" ((repeat "█" n <> repeat "░" (20 - n)) <> "]"),
      size-append (repeat "█" n <> repeat "░" (20 - n)) "]",
      size-append (repeat "█" n) (repeat "░" (20 - n)),
      size-repeat "█" n refl,
      size-repeat "░" (20 - n) refl,
    )

-- A bar has twenty cells between its brackets if the percentage rounds to at most twenty fifths of a
-- hundred, and as many cells as fifths otherwise.
pub bar-size :
    {W : Type 0} (f : F64 W) (percent : W)
    → (f.fifths percent ≤ 20 → size (bar f percent) ≡ 22)
      × (20 ≤ f.fifths percent → size (bar f percent) ≡ f.fifths percent + 2)
bar-size f percent =
    (λ h. omega (arith, bar-length f percent), λ h. omega (arith, bar-length f percent))
