-- ===== src/Config/Credentials.antt =====
-- The credentials that the daemon starts with.
use mathlib.Core.Path.{subst}
use miningpool_observer.Prelude.{
  ◌≡◌, refl, true, false, inl, inr, Option, some, [], ◌∷◌, ◌++◌, contains, is_some, nat_eq,
  Bool-cases, Option-cases, arith,
}
use miningpool_observer.Prelude.Outcomes.{Outcome, panicked, returned, failed, Outcome-cases, ascii}
use miningpool_observer.Bitcoin.{Text}
use miningpool_observer.Tagging.{unwrap_or}
use miningpool_observer.Config.{
  default_daemon_config, Auth, no_auth, user_pass, cookie_file, DaemonTomlConfig, Environment,
  DaemonConfig, rpc_auth_of, pool_identification_from, default_pool_identification,
  load_daemon_config, split_colon, CredentialsError, get_user_pass,
}

-- A cookie file exists, or there are a user and a password.
abbrev pub Usable : Environment → Auth → Type 0
Usable env no_auth = ⊥
Usable env (user_pass u p) = Unit
Usable env (cookie_file path) = env.exists path ≡ true

-- With a user and a password, if it does not fail.
abbrev pub Complete : Outcome CredentialsError (Option Text × Option Text) → Type 0
Complete panicked = ⊥
Complete (failed e) = Unit
Complete (returned r) = (is_some r.0 ≡ true) × (is_some r.1 ≡ true)

rpc_auth_of-Usable :
    (env : Environment) (config : DaemonTomlConfig) (auth : Auth)
    → rpc_auth_of env config ≡ returned auth
    → Usable env auth
unfolding rpc_auth_of
rpc_auth_of-Usable env config auth h = elim (Option-cases config.rpc_cookie_file) [
  | inr (path, e) ↦ elim (Bool-cases (env.exists path)) [
    | inl x ↦ let same : cookie_file path ≡ auth = ground arith in subst (Usable env) same x
    | inr x ↦ absurd (ground arith)
  ]
  | inl e ↦ elim (Option-cases config.rpc_user) [
    | inl u ↦ absurd (ground arith)
    | inr (user, u) ↦ elim (Option-cases config.rpc_password) [
      | inl p ↦ absurd (ground arith)
      | inr (password, p) ↦
          let same : user_pass user password ≡ auth = ground arith in subst (Usable env) same tt
    ]
  ]
]

load_daemon_config-Usable :
    (env : Environment) (c : DaemonConfig env)
    → load_daemon_config env ≡ returned c
    → Usable env c.rpc_auth
unfolding load_daemon_config
load_daemon_config-Usable env c h =
    elim (Option-cases (env.read_to_string (unwrap_or default_daemon_config env.config_file))) [
      | inl e ↦ absurd (ground arith)
      | inr (text, e) ↦ elim (Option-cases (env.daemon_from_str text)) [
        | inl f ↦ absurd (ground arith)
        | inr (config, f) ↦ elim (Outcome-cases (rpc_auth_of env config)) [
          | inl a ↦ absurd (ground arith)
          | inr (inl (err, a)) ↦ absurd (ground arith)
          | inr (inr (auth, a)) ↦ elim (Option-cases (env.level_from_str config.log_level)) [
            | inl l ↦ absurd (ground arith)
            | inr (level, l) ↦
                elim (Outcome-cases (
                  pool_identification_from env
                    (unwrap_or (default_pool_identification env) config.pool_identificatoin))) [
                      | inl q ↦ absurd (ground arith)
                      | inr (inl (err, q)) ↦ absurd (ground arith)
                      | inr (inr (pools, q)) ↦
                          let same : auth ≡ c.rpc_auth = ground arith in
                          subst (Usable env) same (rpc_auth_of-Usable env config auth a)
                    ]
          ]
        ]
      ]
    ]

get_user_pass-Complete :
    (env : Environment) (read_to_string : Text → Option Text) (auth : Auth)
    → Usable env auth
    → Complete (get_user_pass read_to_string auth)
unfolding get_user_pass
get_user_pass-Complete env read no_auth h = absurd h
get_user_pass-Complete env read (user_pass u p) h = (refl, refl)
get_user_pass-Complete env read (cookie_file path) h = elim (Option-cases (read path)) [
  | inl e ↦ rw e tt
  | inr (contents, e) ↦ elim (Option-cases (split_colon contents).1) [
    | inl s ↦ rw (e, s) tt
    | inr (pass, s) ↦ rw (e, s) (refl, refl)
  ]
]

-- A configuration that is loaded names a cookie file that exists, or a user and a password; and the
-- credentials that the daemon then reads from it have a user and a password, or reading them fails:
-- the daemon never panics for want of a user.
pub load_daemon_config-Complete :
    (env : Environment) (c : DaemonConfig env) (read_to_string : Text → Option Text)
    → load_daemon_config env ≡ returned c
    → Usable env c.rpc_auth × Complete (get_user_pass read_to_string c.rpc_auth)
load_daemon_config-Complete env c read h =
    let usable = load_daemon_config-Usable env c h in
    (usable, get_user_pass-Complete env read c.rpc_auth usable)

split_colon-join :
    (user password : Text)
    → contains 58 user ≡ false
    → split_colon (user ++ ascii ":" ++ password) ≡ (user, some password)
unfolding split_colon
split_colon-join [] password h = refl
split_colon-join (c ∷ user) password h = ground (arith, split_colon-join user password)

-- A cookie file with a user that has no colon, a colon and a password gives this user and this
-- password, whatever colons the password has.
get_user_pass-cookie_file :
    (read_to_string : Text → Option Text) (path user password : Text)
    → contains 58 user ≡ false
    → read_to_string path ≡ some (user ++ ascii ":" ++ password)
    → get_user_pass read_to_string (cookie_file path) ≡ returned (some user, some password)
unfolding get_user_pass
get_user_pass-cookie_file read path user password h e =
    rw e (ground (arith, split_colon-join user password h))
