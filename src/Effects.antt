-- ===== src/Effects.antt =====
-- Handlers as trees of calls: every database statement, cache command, clock reading and random
-- draw is a `call`, whose reply the environment chooses. A handler is written once, and is then
-- run against a state (`run`), or examined for every possible reply (`Ensures`).
pub mod Laws
pub mod Guards
pub mod Walk
pub mod Branches
pub mod Replies
pub mod Success
use rust_microservices_archi.Prelude.{
  Result, ok, err, Option, none, some, List, [], ◌∷◌, Bool, ◌≡◌, ℕ, suc, if◌then◌else◌,
}

module _ (Op : Type 0) (Reply : Op → Type 0) where
  pub data Prog (A : Type 0) : Type 0 where
    ret : A → Prog A
    call : (o : Op) → (Reply o → Prog A) → Prog A

module _ {Op : Type 0} {Reply : Op → Type 0} {E A B : Type 0} where
  infixl 5 ◌>>=◌ ◌>>◌
  abbrev pub ◌>>=◌ :
      Prog Op Reply (Result E A) → (A → Prog Op Reply (Result E B)) → Prog Op Reply (Result E B)
  ret (ok a) >>= f = f a
  ret (err e) >>= f = ret (err e)
  call o k >>= f = call o (λ r. k r >>= f)

  abbrev pub ◌>>◌ :
      Prog Op Reply (Result E A) → Prog Op Reply (Result E B) → Prog Op Reply (Result E B)
  m >> n = m >>= λ _. n

module _ {Op : Type 0} {Reply : Op → Type 0} {E A : Type 0} where
  abbrev pub pure : A → Prog Op Reply (Result E A)
  pure a = ret (ok a)

  abbrev pub raise : E → Prog Op Reply (Result E A)
  raise e = ret (err e)

  -- `result?`, and `result.map_err(f)?`.
  abbrev pub lift : Result E A → Prog Op Reply (Result E A)
  lift r = ret r

  abbrev pub map_err : {D : Type 0} → Result D A → (D → E) → Prog Op Reply (Result E A)
  map_err (ok a) f = ret (ok a)
  map_err (err d) f = ret (err (f d))

  -- `option.ok_or_else(|| e)?`.
  abbrev pub ok_or : Option A → E → Prog Op Reply (Result E A)
  ok_or none e = ret (err e)
  ok_or (some a) e = ret (ok a)

module _ {Op : Type 0} {Reply : Op → Type 0} {E : Type 0} where
  -- One call, awaited.
  abbrev pub perform : (o : Op) → Prog Op Reply (Result E (Reply o))
  perform o = call o (λ r. ret (ok r))

  -- `if test { return Err(e) }`.
  abbrev pub fail_if : Bool → E → Prog Op Reply (Result E Unit)
  fail_if b e = ret (if b then err e else ok tt)

-- One call with the reply it was given.
pub data Event (Op : Type 0) (Reply : Op → Type 0) : Type 0 where
  event : (o : Op) → Reply o → Event Op Reply

-- What answers the calls: `exec n o s` is the reply to call number `n` in state `s`, and `before n`
-- is what everybody else does to the state before that call (other requests, replication, expiry).
pub record Machine (Op : Type 0) (Reply : Op → Type 0) (S : Type 0) : Type 0 where
  pub exec : ℕ → (o : Op) → S → Reply o × S
  pub before : ℕ → S → S

module _ {Op : Type 0} {Reply : Op → Type 0} {S A : Type 0} where
  -- The result, the number of the next call and the state that is left.
  abbrev pub run : Machine Op Reply S → ℕ → Prog Op Reply A → S → A × ℕ × S
  run m n (ret a) s = (a, n, s)
  run m n (call o k) s = let (r, s') = m.exec n o (m.before n s) in run m (suc n) (k r) s'

  -- The calls of the same run with their replies, newest first, in front of those made before.
  abbrev pub trace :
      Machine Op Reply S → ℕ → Prog Op Reply A → S → List (Event Op Reply) → List (Event Op Reply)
  trace m n (ret a) s tr = tr
  trace m n (call o k) s tr =
      let (r, s') = m.exec n o (m.before n s) in trace m (suc n) (k r) s' (event o r ∷ tr)

module _ {Op : Type 0} {Reply : Op → Type 0} {A : Type 0} where
  -- Whatever the replies, the calls made (newest first) and the result satisfy `P`.
  abbrev pub Ensures :
      (List (Event Op Reply) → A → Type 0) → List (Event Op Reply) → Prog Op Reply A → Type 0
  Ensures P tr (ret a) = P tr a
  Ensures P tr (call o k) = (r : Reply o) → Ensures P (event o r ∷ tr) (k r)
