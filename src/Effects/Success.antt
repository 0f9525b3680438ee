-- ===== src/Effects/Success.antt =====
-- That a handler succeeds: rules that walk its steps when each is known to go on.
use rust_microservices_archi.Prelude.{
  ◌≡◌, sym, ap, ◌∙◌, subst, ℕ, suc, Bool, false, Option, some, Result, ok,
}
use rust_microservices_archi.Effects.{Prog, call, ◌>>=◌, map_err, ok_or, fail_if, Machine, run}

module _ {Op : Type 0} {Reply : Op → Type 0} {S E : Type 0} (m : Machine Op Reply S) where
  -- The run ends without an error.
  pub record Succeeds {A : Type 0} (n : ℕ) (s : S) (p : Prog Op Reply (Result E A)) : Type 0 where
    pub result : A
    pub returned : (run m n p s).0 ≡ ok result

  module _ {A B : Type 0} (n : ℕ) (s : S) where
    pub past_map_err :
        {D : Type 0} (r : Result D A) (f : D → E) (k : A → Prog Op Reply (Result E B)) {a : A}
        → r ≡ ok a
        → (Unit {0} → Succeeds n s (k a))
        → Succeeds n s (map_err r f >>= k)
    past_map_err r f k e h = subst (λ x. Succeeds n s (map_err x f >>= k)) (sym e) (h tt)

    pub past_ok_or :
        (o : Option A) (e : E) (k : A → Prog Op Reply (Result E B)) {a : A}
        → o ≡ some a
        → (Unit {0} → Succeeds n s (k a))
        → Succeeds n s (ok_or o e >>= k)
    past_ok_or o d k e h = subst (λ x. Succeeds n s (ok_or x d >>= k)) (sym e) (h tt)

  module _ {B : Type 0} (n : ℕ) (s : S) where
    pub past_fail_if :
        (b : Bool) (e : E) (k : Unit {0} → Prog Op Reply (Result E B))
        → b ≡ false
        → (Unit {0} → Succeeds n s (k tt))
        → Succeeds n s (fail_if b e >>= k)
    past_fail_if b d k e h = subst (λ x. Succeeds n s (fail_if x d >>= k)) (sym e) (h tt)

    -- A call with a known reply, after which the state is known to satisfy `J` and no more.
    pub past_call :
        (J : S → Type 0) (o : Op) (k : Reply o → Prog Op Reply (Result E B)) (r : Reply o)
        → (m.exec n o (m.before n s)).0 ≡ r
        → J (m.exec n o (m.before n s)).1
        → ((t : ℕ × ((s' : S) × J s')) → Succeeds t.0 t.1.0 (k r))
        → Succeeds n s (call o k)
    past_call J o k r e j h =
        let s' = (m.exec n o (m.before n s)).1 in
        let rest = h (suc n, (s', j)) in
        record {
          result = rest.result;
          returned = ap (λ x. (run m (suc n) (k x) s').0) e ∙ rest.returned;
        }
