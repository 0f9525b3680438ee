-- ===== src/Effects/Guards.antt =====
-- What a handler has checked when it succeeds: rules that walk its steps, one for each way in which
-- a step can stop it.
use mathlib.Core.Option.{some-injective}
use rust_microservices_archi.Prelude.{
  ◌≡◌, refl, subst, sym, ℕ, zero, suc, get_elem?, Bool, true, false, Option, none, some, List, [],
  ◌∷◌, Result, ok, err, if◌then◌else◌,
}
use rust_microservices_archi.Effects.{
  Prog, ◌>>=◌, map_err, ok_or, fail_if, lift, Event, event, Machine, run, trace, Ensures,
}
use rust_microservices_archi.Effects.Laws.{Ensures-bind, run-Ensures}

module _ {Op : Type 0} {Reply : Op → Type 0} where
  -- The call was made, and got this reply.
  pub data Occurs (o : Op) (r : Reply o) : List (Event Op Reply) → Type 0 where
    here : {tr : List (Event Op Reply)} → Occurs o r (event o r ∷ tr)
    there : {e : Event Op Reply} {tr : List (Event Op Reply)} → Occurs o r tr → Occurs o r (e ∷ tr)

  -- A call is found by its place in the trace.
  pub Occurs-at :
      {o : Op} {r : Reply o} (n : ℕ) (tr : List (Event Op Reply))
      → get_elem? tr n ≡ some (event o r)
      → Occurs o r tr
  Occurs-at n [] h = cc
  Occurs-at {o} {r} zero (e ∷ tr) h =
      subst (λ x. Occurs o r (x ∷ tr)) (some-injective _ _ (sym h)) here
  Occurs-at (suc n) (e ∷ tr) h = there (Occurs-at n tr h)

  module _ {E A : Type 0} where
    -- A property of successful results alone.
    abbrev pub OnOk :
        (List (Event Op Reply) → A → Type 0) → List (Event Op Reply) → Result E A → Type 0
    OnOk Q tr (ok a) = Q tr a
    OnOk Q tr (err e) = Unit

  module _ {E A B : Type 0} (P : List (Event Op Reply) → B → Type 0)
      (tr : List (Event Op Reply)) where
    pub after_map_err :
        {D : Type 0} (r : Result D A) (f : D → E) (k : A → Prog Op Reply (Result E B))
        → ((p : (a : A) × (r ≡ ok a)) → Ensures (OnOk P) tr (k p.0))
        → Ensures (OnOk P) tr (map_err r f >>= k)
    after_map_err (ok a) f k h = h (a, refl)
    after_map_err (err d) f k h = tt

    pub after_ok_or :
        (o : Option A) (e : E) (k : A → Prog Op Reply (Result E B))
        → ((p : (a : A) × (o ≡ some a)) → Ensures (OnOk P) tr (k p.0))
        → Ensures (OnOk P) tr (ok_or o e >>= k)
    after_ok_or none e k h = tt
    after_ok_or (some a) e k h = h (a, refl)

    pub after_lift :
        (r : Result E A) (k : A → Prog Op Reply (Result E B))
        → ((p : (a : A) × (r ≡ ok a)) → Ensures (OnOk P) tr (k p.0))
        → Ensures (OnOk P) tr (lift r >>= k)
    after_lift (ok a) k h = h (a, refl)
    after_lift (err e) k h = tt

    pub after_part :
        (Q : List (Event Op Reply) → A → Type 0) (m : Prog Op Reply (Result E A))
        (k : A → Prog Op Reply (Result E B))
        → Ensures (OnOk Q) tr m
        → ((t : List (Event Op Reply)) (a : A) → Q t a → Ensures (OnOk P) t (k a))
        → Ensures (OnOk P) tr (m >>= k)
    after_part Q m k h rest = Ensures-bind (OnOk P) (OnOk Q) m k tr h rest (λ t e _. tt)

  module _ {E B : Type 0} (P : List (Event Op Reply) → B → Type 0)
      (tr : List (Event Op Reply)) where
    pub unless :
        (b : Bool) (p q : Prog Op Reply (Result E B))
        → (b ≡ true → Ensures (OnOk P) tr p)
        → (b ≡ false → Ensures (OnOk P) tr q)
        → Ensures (OnOk P) tr (if b then p else q)
    unless true p q h k = h refl
    unless false p q h k = k refl

    pub after_fail_if :
        (b : Bool) (e : E) (k : Unit {0} → Prog Op Reply (Result E B))
        → (b ≡ false → Ensures (OnOk P) tr (k tt))
        → Ensures (OnOk P) tr (fail_if b e >>= k)
    after_fail_if true e k h = tt
    after_fail_if false e k h = h refl

-- What a handler ensures of its successful results holds of every run that succeeds.
pub succeeded :
    {Op : Type 0} {Reply : Op → Type 0} {S E A : Type 0} (m : Machine Op Reply S)
    (P : List (Event Op Reply) → A → Type 0) (p : Prog Op Reply (Result E A)) (n : ℕ) (s : S)
    {a : A}
    → Ensures (OnOk P) [] p
    → (run m n p s).0 ≡ ok a
    → P (trace m n p s []) a
succeeded m P p n s h e = subst (OnOk P (trace m n p s [])) e (run-Ensures m (OnOk P) p n s [] h)
