-- ===== src/Effects/Replies.antt =====
-- From the trace of a run back to its states: a call that occurs was answered in some state that
-- satisfies what holds before each call, and what it established still holds at the end.
use rust_microservices_archi.Prelude.{◌≡◌, refl, ◌⊎◌, inl, inr, ℕ, suc, List, [], ◌∷◌}
use rust_microservices_archi.Effects.{Prog, ret, call, Event, event, Machine, run, trace}
use rust_microservices_archi.Effects.Guards.{Occurs, here, there}

-- A call in a longer trace is its newest one, and then whatever holds of the one holds of the other,
-- or an earlier one.
newest :
    {Op : Type 0} {Reply : Op → Type 0} {o q : Op} {r : Reply o} {x : Reply q}
    {tr : List (Event Op Reply)}
    → Occurs o r (event q x ∷ tr)
    → ((C : (p : Op) → Reply p → Type 0) → C o r → C q x) ⊎ Occurs o r tr
newest here = inl (λ C c. c)
newest (there occurs) = inr occurs

module _ {Op : Type 0} {Reply : Op → Type 0} {S : Type 0} (m : Machine Op Reply S)
    (I K : S → Type 0) (others : (n : ℕ) (s : S) → I s → K (m.before n s))
    (calls : (n : ℕ) (o : Op) (s : S) → K s → I (m.exec n o s).1) where
  -- The state in which a call got its reply.
  abbrev pub Answered : (o : Op) → Reply o → Type 0
  Answered o r = (n : ℕ) × (s : S) × K s × (r ≡ (m.exec n o s).0)

  first_reply :
      {o : Op} {r : Reply o} (n : ℕ) (q : Op) (x : Reply q) (s : S) (tr : List (Event Op Reply))
      → K s
      → x ≡ (m.exec n q s).0
      → Occurs o r (event q x ∷ tr)
      → Answered o r ⊎ Occurs o r tr
  first_reply n q x s tr h e here = inl (n, s, h, e)
  first_reply n q x s tr h e (there occurs) = inr occurs

  module _ {A : Type 0} {o : Op} {r : Reply o} where
    since_reply :
        (p : Prog Op Reply A) (n : ℕ) (s : S) (tr : List (Event Op Reply))
        → I s
        → Occurs o r (trace m n p s tr)
        → Answered o r ⊎ Occurs o r tr
    since_reply (ret a) n s tr h occurs = inr occurs
    since_reply (call q k) n s tr h occurs =
        let s' = m.before n s in
        let known = others n s h in
        let (x, after) = m.exec n q s' in
        elim (since_reply (k x) (suc n) after (event q x ∷ tr) (calls n q s' known) occurs) [
          | inl answered ↦ inl answered
          | inr earlier ↦ first_reply n q x s' tr known refl earlier
        ]

    -- Every call in the trace of a run was answered.
    pub run-Answered :
        (p : Prog Op Reply A) (n : ℕ) (s : S) → I s → Occurs o r (trace m n p s []) → Answered o r
    run-Answered p n s h occurs = elim (since_reply p n s [] h occurs) [
      | inl answered ↦ answered
      | inr never ↦ elim never [ ]
    ]

  -- What one reply to a call establishes, and later calls keep, holds once that reply was given.
  module _ {o : Op} {r : Reply o} (J : S → Type 0)
      (sets : (n : ℕ) (s : S) → K s → r ≡ (m.exec n o s).0 → J (m.exec n o s).1)
      (others_keep : (n : ℕ) (s : S) → J s → J (m.before n s))
      (calls_keep : (n : ℕ) (q : Op) (s : S) → J s → J (m.exec n q s).1) where
    set_first :
        (n : ℕ) (q : Op) (x : Reply q) (s : S) (tr : List (Event Op Reply))
        → K (m.before n s)
        → x ≡ (m.exec n q (m.before n s)).0
        → (Occurs o r tr → J s)
        → Occurs o r (event q x ∷ tr)
        → J (m.exec n q (m.before n s)).1
    set_first n q x s tr h e set occurs =
        let s' = m.before n s in
        elim (newest occurs) [
          | inl same ↦ same (λ p y. y ≡ (m.exec n p s').0 → J (m.exec n p s').1) (sets n s' h) e
          | inr earlier ↦ calls_keep n q s' (others_keep n s (set earlier))
        ]

    set_since :
        {A : Type 0} (p : Prog Op Reply A) (n : ℕ) (s : S) (tr : List (Event Op Reply))
        → I s
        → (Occurs o r tr → J s)
        → Occurs o r (trace m n p s tr)
        → J (run m n p s).2
    set_since (ret a) n s tr h set occurs = set occurs
    set_since (call q k) n s tr h set occurs =
        let s' = m.before n s in
        let known = others n s h in
        let (x, after) = m.exec n q s' in
        set_since (k x) (suc n) after (event q x ∷ tr) (calls n q s' known)
          (λ before. set_first n q x s tr known refl set before) occurs

    pub run-Established :
        {A : Type 0} (p : Prog Op Reply A) (n : ℕ) (s : S)
        → I s
        → Occurs o r (trace m n p s [])
        → J (run m n p s).2
    run-Established p n s h occurs = set_since p n s [] h (λ never. elim never [ ]) occurs
