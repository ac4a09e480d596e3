-- ===== src/Server/Login/Exchanged.antt =====
-- internal/server/server.go: what exchangeTelegramOAuthCode has checked when it gives an actor's id.
use remnaguard.Prelude.{
  ℕ, String, true, Option, none, some, ◌==◌, ◌≡◌, refl, arith, Bool-cases, inl, inr, trim_space,
}
use remnaguard.Config.{Config}
use remnaguard.Server.Request.{ok}
use remnaguard.Server.Login.Members.{members_of}
use remnaguard.Server.Login.Keys.{Answer, LoginEnv, is_success}
use remnaguard.Server.Login.Vouched.{IsVouched, telegram_actor_id_from_id_token-IsVouched}
use remnaguard.Server.Login.Handlers.{
  code_form, id_token_of, actor_of_token, actor_of_answer, exchange_telegram_oauth_code,
}

-- Telegram exchanged the code and the verifier for a token that vouches for an actor.
pub record IsExchanged (l : LoginEnv) (cfg : Config) (code code_verifier nonce actor_id : String)
    : Type 0 where
  pub status : ℕ
  pub body : String
  pub id_token : String
  pub answer : l.post_code (code_form l cfg code code_verifier) ≡ some (status, body)
  pub success : is_success status ≡ true
  pub token : id_token_of (members_of (l.first_value body)) ≡ some id_token
  pub vouched : IsVouched l cfg id_token nonce actor_id

token_lem :
    (l : LoginEnv) (cfg : Config) (nonce id : String) (o : Option String)
    → actor_of_token l cfg nonce o ≡ ok id
    → (t : String) × (o ≡ some t) × IsVouched l cfg t nonce id
token_lem l cfg nonce id none h = absurd (ground (arith, h))
token_lem l cfg nonce id (some t) h = elim (Bool-cases (trim_space t == "")) [
  | inl e ↦ absurd (ground (arith, h, e))
  | inr e ↦
      (t, refl, telegram_actor_id_from_id_token-IsVouched l cfg t nonce id (ground (arith, h, e)))
]

answer_lem :
    (l : LoginEnv) (cfg : Config) (code code_verifier nonce id : String) (a : Answer)
    → l.post_code (code_form l cfg code code_verifier) ≡ a
    → actor_of_answer l cfg nonce a ≡ ok id
    → IsExchanged l cfg code code_verifier nonce id
answer_lem l cfg code code_verifier nonce id none given h = absurd (ground (arith, h))
answer_lem l cfg code code_verifier nonce id (some (status, body)) given h =
    elim (Bool-cases (is_success status)) [
      | inl e ↦
          let (t, token, vouched) =
            token_lem l cfg nonce id (id_token_of (members_of (l.first_value body)))
              (ground (arith, h, e)) in
          record {
            status = status;
            body = body;
            id_token = t;
            answer = given;
            success = e;
            token = token;
            vouched = vouched;
          }
      | inr e ↦ absurd (ground (arith, h, e))
    ]

pub exchange_lem :
    (l : LoginEnv) (cfg : Config) (code code_verifier nonce id : String)
    → exchange_telegram_oauth_code l cfg code code_verifier nonce ≡ ok id
    → IsExchanged l cfg code code_verifier nonce id
unfolding exchange_telegram_oauth_code
exchange_lem l cfg code code_verifier nonce id h =
    answer_lem l cfg code code_verifier nonce id (l.post_code (code_form l cfg code code_verifier))
      refl h
