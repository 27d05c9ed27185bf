-- ===== src/Ipc/Applier.antt =====
-- src/ipc/client.rs: the applier that reads the token and calls the helper for each bundle.
use mayfly_agent.Ipc.Client.{apply_bundle, token_of_file, HelperClient}
use mayfly_agent.Result.{◌>>=◌, Result}
use mayfly_agent.Protocol.CaSync.Service.{BundleApplyOutcome}
use mayfly_agent.Errors.{Error}
use mayfly_agent.Text.Chars.{Text}
use mayfly_agent.Prelude.{Option}

-- What reading the token file gives, and how the helper answers a client with this token.
pub record HelperBundleApplier : Type 0 where
  pub token_file : Option Text
  pub client : Text → HelperClient

unfoldable pub apply_with_token : HelperBundleApplier → Text → Result Error BundleApplyOutcome
apply_with_token applier trusted_ca_keys = do
  token ← token_of_file applier.token_file
  apply_bundle (applier.client token) trusted_ca_keys
