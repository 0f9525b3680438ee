-- ===== src/Effects/Walk.antt =====
-- Notation for proofs that walk a handler: in a `do` block each rule binds what its step has
-- established, and the rest of the proof follows.
infixl 5 ◌>>=◌
abbrev pub ◌>>=◌ : {X G : Type 0} {H : X → Type 0} → (((x : X) → H x) → G) → ((x : X) → H x) → G
rule >>= rest = rule rest

-- The reply to a call.
abbrev pub reply : {X : Type 0} {H : X → Type 0} → ((x : X) → H x) → (x : X) → H x
reply h = h
