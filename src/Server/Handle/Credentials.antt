-- ===== src/Server/Handle/Credentials.antt =====
-- Which requests the credentials of the environment authorize.
use package_firewall.Common.{
  ◌≡◌, refl, ap, ◌⊎◌, inl, inr, true, false, ◌&&◌, Option, some, none, List, [], ◌∷◌, arith,
}
use package_firewall.Common.Text.{Text, codes, is_empty, text_eq, text_eq_iff}
use package_firewall.Common.Cut.{cut_prefix}
use package_firewall.Server.Handle.{
  RouteConfig, Sort, AuthConfig, Environment, Server, Request, present_secret, secret_from_env,
  new_server, authorized, is_bearer, is_pair,
}

-- The value of a secret: nothing without a name, and otherwise what the environment holds.
pub data Secret (env : Environment) (name value : Text) : Type 0 where
  unnamed : name ≡ [] → value ≡ [] → Secret env name value
  named : env name ≡ some value → is_empty value ≡ false → Secret env name value

-- Why a request is authorized: no secret is named, or it carries the bearer token, or the pair of
-- the user's name and the password.
pub data Permitted (env : Environment) (auth : AuthConfig) (r : Request) : Type 0 where
  unlocked :
      auth.bearer_token_env ≡ []
      → auth.basic_username_env ≡ []
      → auth.basic_password_env ≡ []
      → Permitted env auth r
  token :
      (value : Text)
      → env auth.bearer_token_env ≡ some value
      → is_empty value ≡ false
      → cut_prefix r.authorization (codes "Bearer ") ≡ some value
      → Permitted env auth r
  pair :
      (user pass : Text)
      → Secret env auth.basic_username_env user
      → Secret env auth.basic_password_env pass
      → (is_empty user && is_empty pass) ≡ false
      → r.basic_auth ≡ some (user, pass)
      → Permitted env auth r

present_secret-Secret :
    (env : Environment) (name : Text) (o : Option Text)
    → env name ≡ o
    → (present_secret o).1 ≡ true
    → Secret env name (present_secret o).0
present_secret-Secret env name none e h = let never : ⊥ = cc in absurd never
present_secret-Secret env name (some []) e h = let never : ⊥ = cc in absurd never
present_secret-Secret env name (some (d ∷ value)) e h = named e refl

secret_from_env-Secret :
    (env : Environment) (name : Text)
    → (secret_from_env env name).1 ≡ true
    → Secret env name (secret_from_env env name).0
unfolding secret_from_env
secret_from_env-Secret env [] h = unnamed refl refl
secret_from_env-Secret env (c ∷ name) h =
    present_secret-Secret env (c ∷ name) (env (c ∷ name)) refl h

authorized-cases :
    (s : Server) (r : Request)
    → authorized s r ≡ true
    → (s.auth_ready ≡ true)
      × (((is_empty s.bearer && is_empty s.basic_user && is_empty s.basic_pass) ≡ true)
          ⊎ ((is_empty s.bearer ≡ false)
              × (is_bearer s.bearer (cut_prefix r.authorization (codes "Bearer ")) ≡ true))
          ⊎ (((is_empty s.basic_user && is_empty s.basic_pass) ≡ false)
              × (is_pair s.basic_user s.basic_pass r.basic_auth ≡ true)))
unfolding authorized
authorized-cases s r h = ground arith

is_bearer-some : (bearer : Text) (o : Option Text) → is_bearer bearer o ≡ true → o ≡ some bearer
is_bearer-some bearer none h = cc
is_bearer-some bearer (some t) h = ap some ((text_eq_iff t bearer).0 h)

is_pair-some :
    (user pass : Text) (o : Option (Text × Text))
    → is_pair user pass o ≡ true
    → ◌≡◌ {A = Option (Text × Text)} o (some (user, pass))
is_pair-some user pass none h = cc
is_pair-some user pass (some (u, p)) h =
    let a : text_eq u user ≡ true = ground arith in
    let b : text_eq p pass ≡ true = ground arith in
    let eu = (text_eq_iff u user).0 a in let ep = (text_eq_iff p pass).0 b in cc

Secret-unnamed :
    (env : Environment) (name value : Text)
    → Secret env name value
    → is_empty value ≡ true
    → name ≡ []
Secret-unnamed env name value (unnamed n _) e = n
Secret-unnamed env name value (named _ full) e = let never : ⊥ = cc in absurd never

Secret-named :
    (env : Environment) (name value : Text)
    → Secret env name value
    → is_empty value ≡ false
    → env name ≡ some value
Secret-named env name value (unnamed _ v) e =
    let k = rw v at e in let never : ⊥ = cc in absurd never
Secret-named env name value (named n _) e = n

by_case :
    (env : Environment) (auth : AuthConfig) (r : Request) (bearer user pass : Text)
    → Secret env auth.bearer_token_env bearer
    → Secret env auth.basic_username_env user
    → Secret env auth.basic_password_env pass
    → ((is_empty bearer && is_empty user && is_empty pass) ≡ true)
      ⊎ ((is_empty bearer ≡ false)
          × (is_bearer bearer (cut_prefix r.authorization (codes "Bearer ")) ≡ true))
      ⊎ (((is_empty user && is_empty pass) ≡ false) × (is_pair user pass r.basic_auth ≡ true))
    → Permitted env auth r
by_case env auth r bearer user pass b u p (inl empty) =
    unlocked (Secret-unnamed env _ bearer b (ground arith))
      (Secret-unnamed env _ user u (ground arith)) (Secret-unnamed env _ pass p (ground arith))
by_case env auth r bearer user pass b u p (inr (inl (full, sent))) =
    token bearer (Secret-named env _ bearer b full) full (is_bearer-some bearer _ sent)
by_case env auth r bearer user pass b u p (inr (inr (full, sent))) =
    pair user pass u p full (is_pair-some user pass _ sent)

-- A request is authorized only if no secret is named, or it carries the bearer token or the pair
-- of the user's name and the password that the environment holds.
pub authorized-Permitted :
    (sort : Sort) (env : Environment) (auth : AuthConfig) (routes : List RouteConfig) (r : Request)
    → authorized (new_server sort env auth routes) r ≡ true
    → Permitted env auth r
unfolding new_server
authorized-Permitted sort env auth routes r h =
    let (ready, cases) = authorized-cases (new_server sort env auth routes) r h in
    by_case env auth r _ _ _ (secret_from_env-Secret env auth.bearer_token_env (ground arith))
      (secret_from_env-Secret env auth.basic_username_env (ground arith))
      (secret_from_env-Secret env auth.basic_password_env (ground arith)) cases
