-- ===== src/Server/Login/LoggedIn.antt =====
-- internal/server/server.go: what the panel's login has checked when it hands out a session.
use remnaguard.Prelude.{
  ◌≤◌, String, true, not, Option, none, some, ◌||◌, ◌==◌, ◌≡◌, refl, ap, sym, arith, eq_iff,
  eq_of_nat_eq, Bool-cases, inl, inr, ltb, nat_eq, trim_space,
}
use remnaguard.Config.{TokenPolicy, Credential}
use remnaguard.Json.{Fields}
use remnaguard.Auth.Session.{issue_panel_session}
use remnaguard.Policy.Actor.{
  Resolved, resolved, unresolved, IsMapped, resolve_telegram_actor_credential-IsMapped,
}
use remnaguard.Routes.{Route}
use remnaguard.Server.Env.{Env}
use remnaguard.Server.OauthStore.{OauthStore, Attempt, take}
use remnaguard.Server.Request.{Request, Outcome, ok, err}
use remnaguard.Server.Handler.World.{RuntimeState, LoginReply, login_session}
use remnaguard.Server.Login.Members.{text_member}
use remnaguard.Server.Login.Keys.{LoginEnv}
use remnaguard.Server.Login.Handlers.{
  exchange_telegram_oauth_code, members_in, session_or_denied, of_resolved, of_actor, of_attempt,
  of_taken, same_state, callback_with, of_members, handle_panel_oauth2_callback,
}
use remnaguard.Server.Login.Exchanged.{IsExchanged, exchange_lem}

module _ (env : Env) (l : LoginEnv) (st : RuntimeState) where
  -- The login that a session is handed out for: the browser's cookie has the state of the callback, an attempt
  -- of this generation waited under it and has not expired, Telegram vouched for an actor with the
  -- attempt's nonce, and the actor is mapped to a live credential.
  pub record IsLoggedIn (store after : OauthStore) (token : String) : Type 0 where
    pub state : String
    pub code : String
    pub cookie : l.cookie "remnaguard_panel_oauth_state" ≡ some state
    pub attempt : Attempt
    pub taken : (take state l.now store).1 ≡ some attempt
    pub spent : after ≡ (take state l.now store).0
    pub unexpired : l.now ≤ attempt.expires_at
    pub current : attempt.generation ≡ st.generation
    pub actor_id : String
    pub exchanged : IsExchanged l st.cfg code attempt.code_verifier attempt.nonce actor_id
    pub policy : TokenPolicy
    pub credential : Credential
    pub mapped : IsMapped st.cfg actor_id policy credential
    pub issued :
        issue_panel_session env.sign env.encode_claims env.decode_claims env.getenv
          st.cfg.panel_facade actor_id l.now
        ≡ some token

  issued_lem :
      (route : Route) (o : Option String) (token : String)
      → session_or_denied env l st route o ≡ login_session token
      → o ≡ some token
  issued_lem route none token h = absurd (ground (arith, h))
  issued_lem route (some t) token h = ground (arith, h)

  resolved_lem :
      (route : Route) (actor_id token : String) (o : Resolved)
      → of_resolved env l st route actor_id o ≡ login_session token
      → (tok : TokenPolicy) × (cred : Credential) × (o ≡ resolved tok cred)
        × (issue_panel_session env.sign env.encode_claims env.decode_claims env.getenv
              st.cfg.panel_facade actor_id l.now
            ≡ some token)
  resolved_lem route actor_id token (unresolved e) h = absurd (ground (arith, h))
  resolved_lem route actor_id token (resolved tok cred) h =
      (tok, cred, refl, issued_lem route _ token h)

  -- What follows the exchange of the code.
  actor_lem :
      (route : Route) (token : String) (o : Outcome String)
      → of_actor env l st route o ≡ login_session token
      → (id : String) × (tok : TokenPolicy) × (cred : Credential) × (o ≡ ok id)
        × IsMapped st.cfg id tok cred
        × (issue_panel_session env.sign env.encode_claims env.decode_claims env.getenv
              st.cfg.panel_facade id l.now
            ≡ some token)
  actor_lem route token (err e) h = absurd (ground (arith, h))
  actor_lem route token (ok id) h =
      let (tok, cred, found, issued) = resolved_lem route id token _ h in
      (
        id,
        tok,
        cred,
        refl,
        resolve_telegram_actor_credential-IsMapped st.cfg st.has_actors id tok cred found,
        issued,
      )

  attempt_lem :
      (route : Route) (store after : OauthStore) (state code token : String) (o : Option Attempt)
      → l.cookie "remnaguard_panel_oauth_state" ≡ some state
      → (take state l.now store).1 ≡ o
      → after ≡ (take state l.now store).0
      → of_attempt env l st route code o ≡ login_session token
      → IsLoggedIn store after token
  attempt_lem route store after state code token none cookie taken spent h =
      absurd (ground (arith, h))
  attempt_lem route store after state code token (some a) cookie taken spent h =
      let stale = ltb a.expires_at l.now || not (nat_eq a.generation st.generation) in
      elim (Bool-cases stale) [
        | inl e ↦ absurd (ground (arith, h, e))
        | inr e ↦
            let (id, tok, cred, exchanged, mapped, issued) =
              actor_lem route token
                (exchange_telegram_oauth_code l st.cfg code a.code_verifier a.nonce)
                (ground (arith, h, e)) in
            record {
              state = state;
              code = code;
              cookie = cookie;
              attempt = a;
              taken = taken;
              spent = spent;
              unexpired = ground (arith, e);
              current = eq_of_nat_eq a.generation st.generation (ground (arith, e));
              actor_id = id;
              exchanged = exchange_lem l st.cfg code a.code_verifier a.nonce id exchanged;
              policy = tok;
              credential = cred;
              mapped = mapped;
              issued = issued;
            }
      ]

  cookie_lem :
      (o : Option String) (state : String) → same_state env l st o state ≡ true → o ≡ some state
  cookie_lem none state h = absurd (ground (arith, h))
  cookie_lem (some v) state h = ap (λ s. some s) ((eq_iff v state).0 h)

  taken_lem :
      (route : Route) (store after : OauthStore) (state code token : String)
      → l.cookie "remnaguard_panel_oauth_state" ≡ some state
      → of_taken env l st route code (take state l.now store) ≡ (after, login_session token)
      → IsLoggedIn store after token
  taken_lem route store after state code token cookie h =
      attempt_lem route store after state code token (take state l.now store).1 cookie refl
        (sym (ap (λ (x : OauthStore × LoginReply). x.0) h))
        (ap (λ (x : OauthStore × LoginReply). x.1) h)

  with_lem :
      (r : Request) (route : Route) (store after : OauthStore) (provider code state : Option String)
      (token : String)
      → callback_with env l st r route store provider code state ≡ (after, login_session token)
      → IsLoggedIn store after token
  with_lem r route store after (some provider) (some code) (some state) token h =
      elim (Bool-cases (not (provider == "telegram") || trim_space code == "")) [
        | inl e ↦ absurd (ground (arith, h, e))
        | inr e ↦
            elim (Bool-cases
              (same_state env l st (l.cookie "remnaguard_panel_oauth_state") state)) [
                | inl f ↦
                    taken_lem route store after state code token
                      (cookie_lem (l.cookie "remnaguard_panel_oauth_state") state f)
                      (ground (arith, h, e, f))
                | inr f ↦ absurd (ground (arith, h, e, f))
              ]
      ]
  with_lem r route store after _ _ _ token h = absurd (ground (arith, h))

  members_lem :
      (r : Request) (route : Route) (store after : OauthStore) (token : String) (o : Option Fields)
      → of_members env l st r route store o ≡ (after, login_session token)
      → IsLoggedIn store after token
  members_lem r route store after token none h = absurd (ground (arith, h))
  members_lem r route store after token (some fs) h =
      with_lem r route store after (text_member "provider" (some "") fs)
        (text_member "code" (some "") fs) (text_member "state" (some "") fs) token h

  -- The callback of a login hands out a session only for a login that is complete, as IsLoggedIn says it: with
  -- the browser's state, a waiting attempt that is then spent, a code that Telegram exchanged for a
  -- token that vouches for an actor, and a live credential that the actor is mapped to.
  pub handle_panel_oauth2_callback-IsLoggedIn :
      (r : Request) (route : Route) (store after : OauthStore) (token : String)
      → handle_panel_oauth2_callback env l st r route store ≡ (after, login_session token)
      → IsLoggedIn store after token
  unfolding handle_panel_oauth2_callback
  handle_panel_oauth2_callback-IsLoggedIn r route store after token h =
      members_lem r route store after token (members_in env r) h
