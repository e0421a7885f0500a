-- ===== src/Iam/Tokens.antt =====
-- Password reset tokens: internal/core/services/password_reset.go.
use thecloud.Prelude.{suc, ◌<◌, true, Option, some, Text, find?, text_eq, ◌≡◌, ◌⊎◌, arith}
use thecloud.Errors.{plain}
use thecloud.Action.{err, World, Env}
use thecloud.Iam.Types.{ResetToken, Crypto, Tables}
use thecloud.Iam.Reset.{reset_password}

module _ (c : Crypto) where
  abbrev pub find_token : Text → Tables → Option ResetToken
  find_token token t =
      find? (λ (k : ResetToken). text_eq k.token_hash (c.digest token)) t.reset_tokens

  -- A token that was used, or that expired before the clock is read, changes no password: the
  -- call fails and the tables stay.
  pub reset_password_refused :
      (e : Env) (w : World Tables) (token password : Text) {k : ResetToken}
      → find_token token w.tables ≡ some k
      → (k.used ≡ true) ⊎ (k.expires_at < e.clock (suc w.tick))
      → ((reset_password c token password e w).0 ≡ err plain)
        × ((reset_password c token password e w).1.tables ≡ w.tables)
  unfolding reset_password
  reset_password_refused e w token password found stale = ground arith
