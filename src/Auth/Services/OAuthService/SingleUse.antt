-- ===== src/Auth/Services/OAuthService/SingleUse.antt =====
-- How often an authorization code is redeemed.
use mathlib.Core.Option.{some-injective}
use rust_microservices_archi.Prelude.{◌≡◌, sym, subst, ◌∙◌, ℕ, String, some, [], ok}
use rust_microservices_archi.Effects.{run, trace}
use rust_microservices_archi.Effects.Guards.{Occurs}
use rust_microservices_archi.Effects.Replies.{run-Answered, run-Established}
use rust_microservices_archi.Auth.Models.{TokenRequest, TokenResponse, AppConfig}
use rust_microservices_archi.Auth.External.{External}
use rust_microservices_archi.Auth.Calls.{World, Env, machine, select_code, update_code_used}
use rust_microservices_archi.Auth.Calls.Spent.{HasCode, IsSpent}
use rust_microservices_archi.Auth.Calls.Spent.Lasting.{
  exec-HasCode, exec-IsSpent, exec_marked-IsSpent, exec_selected-used,
}
use rust_microservices_archi.Auth.Services.OAuthService.Exchange.{exchange_authorization_code}
use rust_microservices_archi.Auth.Services.OAuthService.Redemption.{exchanged_code-IsRedeemed}

-- What reads are answered from is what was written, and the others neither take a code away nor make
-- a used one usable.
pub record IsSingleServer (env : Env) (c : String) : Type 0 where
  pub synced : (n : ℕ) (w : World) → (env.before n w).read ≡ (env.before n w).write
  pub issued : (n : ℕ) (w : World) → HasCode c w.write → HasCode c (env.before n w).write
  pub spent : (n : ℕ) (w : World) → IsSpent c w.write → IsSpent c (env.before n w).write

module _ (ext : External) (config : AppConfig) (env : Env) (c : String)
    (single : IsSingleServer env c) where
  -- A spent code is refused.
  spent_code_refused :
      (n : ℕ) (w : World) (req : TokenRequest) {resp : TokenResponse}
      → req.code ≡ some c
      → IsSpent c w.write
      → ¬ ((run (machine env) n (exchange_authorization_code ext config req) w).0 ≡ ok resp)
  spent_code_refused n w req {resp} given spent redeemed =
      let p = exchange_authorization_code ext config req in
      let seen = exchanged_code-IsRedeemed ext config env n w req redeemed in
      let is_c : seen.code ≡ c = some-injective _ _ (sym seen.code_given ∙ given) in
      let (k, s, s_spent, answer) =
        run-Answered (machine env) (λ s. IsSpent c s.write)
          (λ s. IsSpent c s.write × IsSpent c s.read)
          (λ k s h.
            let after = single.spent k s h in
            (after, subst (IsSpent c) (sym (single.synced k s)) after))
          (λ k o s h. exec-IsSpent c env k o s h.0) p n w spent
          (subst (λ d. Occurs (select_code d) (ok seen.row) (trace (machine env) n p w [])) is_c
            seen.row_read) in
      cc (exec_selected-used c env k s seen.row s_spent.1 answer, seen.unused)

  -- A redeemed code is spent.
  redeemed_code-IsSpent :
      (n : ℕ) (w : World) (req : TokenRequest) {resp : TokenResponse}
      → req.code ≡ some c
      → HasCode c w.write
      → (run (machine env) n (exchange_authorization_code ext config req) w).0 ≡ ok resp
      → IsSpent c (run (machine env) n (exchange_authorization_code ext config req) w).2.write
  redeemed_code-IsSpent n w req {resp} given has redeemed =
      let p = exchange_authorization_code ext config req in
      let seen = exchanged_code-IsRedeemed ext config env n w req redeemed in
      let is_c : seen.code ≡ c = some-injective _ _ (sym seen.code_given ∙ given) in
      run-Established (machine env) (λ s. HasCode c s.write) (λ s. HasCode c s.write) single.issued
        (λ k o s h. exec-HasCode c env k o s h) (λ s. IsSpent c s.write)
        (λ k s h e. exec_marked-IsSpent c env k s seen.affected h e) single.spent
        (λ k o s h. exec-IsSpent c env k o s h) p n w has
        (subst (λ d. Occurs (update_code_used d) (ok seen.affected) (trace (machine env) n p w []))
          is_c seen.marked)

-- Where reads are answered from what was written, and the other requests that run meanwhile neither
-- take this code away nor make it unused, an issued authorization code is redeemed at most once: after
-- an exchange for it has succeeded, every later exchange for it, by whatever client, fails.
pub redeemed_at_most_once :
    (ext : External) (config : AppConfig) (env : Env) (c : String)
    → IsSingleServer env c
    → (n : ℕ) (w : World) (first later : TokenRequest) {resp : TokenResponse} → HasCode c w.write
    → first.code ≡ some c
    → later.code ≡ some c
    → (run (machine env) n (exchange_authorization_code ext config first) w).0 ≡ ok resp
    → (m : ℕ) (again : TokenResponse)
    → ¬ (
        (run
          (machine env)
          m
          (exchange_authorization_code ext config later)
          (run (machine env) n (exchange_authorization_code ext config first) w).2).0
        ≡ ok again)
redeemed_at_most_once ext config env c single n w first later has given given' redeemed m again =
    spent_code_refused ext config env c single m _ later given'
      (redeemed_code-IsSpent ext config env c single n w first given has redeemed)
