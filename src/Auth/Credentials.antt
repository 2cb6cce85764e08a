-- ===== src/Auth/Credentials.antt =====
-- app/auth/service.py: the check of the administrator's name and password. bcrypt, PBKDF2 and Python's
-- `int` of a text are parameters; `none` is an exception, which `bcrypt.checkpw` and `int` raise as
-- `ValueError`. An outcome `none` is an exception that reaches the caller.
pub mod Hashes
mod Examples
use xianyu_manager.Text.{split_on}
use xianyu_manager.Runtime.AccountRegistry.{count}
use xianyu_manager.Prelude.{
  ◌&&◌, ◌-◌, ◌==◌, ◌==ℕ◌, Bool, List, Option, String, [], false, if◌then◌else◌, ltb, none, not,
  some, true, ℕ, ℤ, ◌∷◌,
}
use Prim.Native.Char.{code}
use Prim.Native.String.{◌++◌ as ◌⊕◌}
use text.Mathlib.Text.{starts_with}

pub record Settings : Type 0 where
  pub admin_username : String
  pub admin_password_hash : String

-- What `split("$", 3)` leaves in its last part.
unfoldable pub joined : String → List String → String
joined part [] = part
joined part (p ∷ parts) = (part ⊕ "$") ⊕ joined p parts

unfoldable pub is_ascii : String → Bool
is_ascii String.[] = true
is_ascii (String.◌∷◌ c s) = ltb (code c) 128 && is_ascii s

-- `secrets.compare_digest`, which raises on a text that is not ASCII.
unfoldable pub compare_digest : String → String → Option Bool
unfolding is_ascii
compare_digest a b = if is_ascii a && is_ascii b then some (a == b) else none

module _ (checkpw : String → String → Option Bool)
    (pbkdf2_hmac : String → String → ℤ → Option String) (parse_int : String → Option ℤ) where
  unfoldable pub verify_bcrypt_password : String → String → Option Bool
  verify_bcrypt_password password password_hash = elim (checkpw password password_hash) [
    | some b ↦ some b
    | none ↦ some false
  ]

  -- The comparison of the hash of a password, by the number of iterations.
  unfoldable pub compare_pbkdf2 : String → String → String → Option ℤ → Option Bool
  unfolding compare_digest
  compare_pbkdf2 password salt expected_hash none = some false
  compare_pbkdf2 password salt expected_hash (some iterations) =
      elim (pbkdf2_hmac password salt iterations) [
        | none ↦ none
        | some calculated_hash ↦ compare_digest calculated_hash expected_hash
      ]

  -- The check against the parts of a hash; fewer than four are a `ValueError`.
  unfoldable pub verify_parts : String → String × List String → Option Bool
  unfolding compare_pbkdf2 joined
  verify_parts password (algorithm, iterations_text ∷ salt ∷ part ∷ parts) =
      if algorithm == "pbkdf2_sha256"
      then compare_pbkdf2 password salt (joined part parts) (parse_int iterations_text)
      else some false
  verify_parts password _ = some false

  unfoldable pub verify_pbkdf2_password : String → String → Option Bool
  unfolding verify_parts split_on
  verify_pbkdf2_password password password_hash = verify_parts password (split_on 36 password_hash)

  unfoldable pub verify_password : String → String → Option Bool
  unfolding verify_bcrypt_password verify_pbkdf2_password
  verify_password password password_hash =
      if starts_with password_hash "$2"
      then verify_bcrypt_password password password_hash
      else if starts_with password_hash "pbkdf2_sha256$"
      then verify_pbkdf2_password password password_hash
      else some false

  unfoldable pub verify_admin_login : Settings → String → String → Option Bool
  unfolding verify_password
  verify_admin_login settings username password =
      if not (username == settings.admin_username)
      then some false
      else if settings.admin_password_hash == ""
      then some false
      else verify_password password settings.admin_password_hash
