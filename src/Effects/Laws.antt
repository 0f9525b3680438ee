-- ===== src/Effects/Laws.antt =====
-- Rules for handlers: sequencing under `Ensures`, what it says of every run, and invariants.
use rust_microservices_archi.Prelude.{Result, ok, err, List, ◌∷◌, ℕ, suc}
use rust_microservices_archi.Effects.{
  Prog, ret, call, ◌>>=◌, Event, event, Machine, run, trace, Ensures,
}

module _ {Op : Type 0} {Reply : Op → Type 0} {E A B : Type 0}
    (P : List (Event Op Reply) → Result E B → Type 0)
    (Q : List (Event Op Reply) → Result E A → Type 0) where
  -- The rest of a handler may use what the first part has ensured.
  pub Ensures-bind :
      (m : Prog Op Reply (Result E A)) (f : A → Prog Op Reply (Result E B))
      (tr : List (Event Op Reply))
      → Ensures Q tr m
      → ((t : List (Event Op Reply)) (a : A) → Q t (ok a) → Ensures P t (f a))
      → ((t : List (Event Op Reply)) (e : E) → Q t (err e) → P t (err e))
      → Ensures P tr (m >>= f)
  Ensures-bind (ret (ok a)) f tr h good bad = good tr a h
  Ensures-bind (ret (err e)) f tr h good bad = bad tr e h
  Ensures-bind (call o k) f tr h good bad =
      λ r. Ensures-bind (k r) f (event o r ∷ tr) (h r) good bad

module _ {Op : Type 0} {Reply : Op → Type 0} {S A : Type 0} (m : Machine Op Reply S) where
  -- What is ensured for all replies holds of every run, on any state and with any interference.
  pub run-Ensures :
      (P : List (Event Op Reply) → A → Type 0) (p : Prog Op Reply A) (n : ℕ) (s : S)
      (tr : List (Event Op Reply))
      → Ensures P tr p
      → P (trace m n p s tr) (run m n p s).0
  run-Ensures P (ret a) n s tr h = h
  run-Ensures P (call o k) n s tr h =
      let (r, s') = m.exec n o (m.before n s) in
      run-Ensures P (k r) (suc n) s' (event o r ∷ tr) (h r)

  -- An invariant of single calls and of the interference is an invariant of every handler.
  pub run-keeps :
      (I : S → Type 0)
      → ((n : ℕ) (s : S) → I s → I (m.before n s))
      → ((n : ℕ) (o : Op) (s : S) → I s → I (m.exec n o s).1)
      → (p : Prog Op Reply A) (n : ℕ) (s : S) → I s
      → I (run m n p s).2
  run-keeps I others calls (ret a) n s h = h
  run-keeps I others calls (call o k) n s h =
      let (r, s') = m.exec n o (m.before n s) in
      run-keeps I others calls (k r) (suc n) s' (calls n o (m.before n s) (others n s h))

module _ {Op : Type 0} {Reply : Op → Type 0} {A : Type 0}
    (P Q : List (Event Op Reply) → A → Type 0) where
  -- A weaker property is ensured as well.
  pub Ensures-weaken :
      (p : Prog Op Reply A) (tr : List (Event Op Reply))
      → ((t : List (Event Op Reply)) (a : A) → P t a → Q t a)
      → Ensures P tr p
      → Ensures Q tr p
  Ensures-weaken (ret a) tr weaker h = weaker tr a h
  Ensures-weaken (call o k) tr weaker h = λ r. Ensures-weaken (k r) (event o r ∷ tr) weaker (h r)
