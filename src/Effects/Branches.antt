-- ===== src/Effects/Branches.antt =====
-- Rules that walk a handler for a property of every outcome, errors included: beside the way on,
-- each rule takes the proof for the way out.
use rust_microservices_archi.Prelude.{
  ◌≡◌, refl, Bool, true, false, Option, none, some, List, Result, ok, err, if◌then◌else◌,
}
use rust_microservices_archi.Effects.{Prog, ◌>>=◌, map_err, ok_or, fail_if, lift, Event, Ensures}

module _ {Op : Type 0} {Reply : Op → Type 0} {E B : Type 0}
    (P : List (Event Op Reply) → Result E B → Type 0) (tr : List (Event Op Reply)) where
  pub or_map_err :
      {A D : Type 0} (r : Result D A) (f : D → E) (k : A → Prog Op Reply (Result E B))
      → ((d : D) → P tr (err (f d)))
      → ((a : A) → Ensures P tr (k a))
      → Ensures P tr (map_err r f >>= k)
  or_map_err (ok a) f k bad good = good a
  or_map_err (err d) f k bad good = bad d

  pub or_ok_or :
      {A : Type 0} (o : Option A) (e : E) (k : A → Prog Op Reply (Result E B))
      → P tr (err e)
      → ((p : (a : A) × (o ≡ some a)) → Ensures P tr (k p.0))
      → Ensures P tr (ok_or o e >>= k)
  or_ok_or none e k bad good = bad
  or_ok_or (some a) e k bad good = good (a, refl)

  pub or_lift :
      {A : Type 0} (r : Result E A) (k : A → Prog Op Reply (Result E B))
      → ((e : E) → P tr (err e))
      → ((a : A) → Ensures P tr (k a))
      → Ensures P tr (lift r >>= k)
  or_lift (ok a) k bad good = good a
  or_lift (err e) k bad good = bad e

  pub or_fail_if :
      (b : Bool) (e : E) (k : Unit {0} → Prog Op Reply (Result E B))
      → P tr (err e)
      → (b ≡ false → Ensures P tr (k tt))
      → Ensures P tr (fail_if b e >>= k)
  or_fail_if true e k bad good = bad
  or_fail_if false e k bad good = good refl

  pub either :
      (b : Bool) (p q : Prog Op Reply (Result E B))
      → Ensures P tr p
      → (b ≡ false → Ensures P tr q)
      → Ensures P tr (if b then p else q)
  either true p q h k = h
  either false p q h k = k refl
