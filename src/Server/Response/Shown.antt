-- ===== src/Server/Response/Shown.antt =====
-- internal/server/server.go: what a client is shown of a response that the policies let pass.
use remnaguard.Prelude.{ℕ, true, Option, none, some, ◌≡◌}
use remnaguard.Config.{TokenPolicy}
use remnaguard.Json.{Json}
use remnaguard.Proxy.{Response}
use remnaguard.Remnawave.{User}
use remnaguard.Remnawave.Empty.{is_empty_user_response}
use remnaguard.Remnawave.Ownership.{IsOwned}
use remnaguard.Server.Env.{Env}
use remnaguard.Server.ListFilter.Slices.{Shows}
use remnaguard.Server.Response.Recounted.{IsRecounted}
use remnaguard.Server.Response.Policy.{user_in}

module _ (env : Env) where
  -- A body with one user that the token owns.
  pub record IsOwnedBody (tok : TokenPolicy) (body : Option Json) : Type 0 where
    pub user : User
    pub decoded : user_in env body ≡ some user
    pub owned : IsOwned env.matches_regex tok.constraints user

  -- A body that is empty for IsEmptyUserResponse, in which DecodeUser finds no user.
  pub record IsBlankBody (body : Option Json) : Type 0 where
    pub empty : is_empty_user_response body ≡ true
    pub no_user : user_in env body ≡ none

  -- A response with a list that was filtered by a test: what is written shows of the body's value only what
  -- the test keeps, and every count in it is the number of items that the test keeps.
  pub record IsFilteredBy (keep : Json → Option Json) (res out : Response) : Type 0 where
    pub root : Json
    pub decoded : env.decoded_value res.body ≡ some root
    pub shown : Json
    pub count : ℕ
    pub shows : Shows keep count root shown
    pub recounted : Json
    pub counts : IsRecounted (env.itoa count) shown recounted
    pub body : out.body ≡ env.write_json recounted
    pub status : out.status_code ≡ res.status_code
