-- ===== src/Protocol/CaSync/Pin.antt =====
-- The pinned signing key is written once.
use mayfly_agent.Protocol.CaSync.Keeps.{
  settle-Carries, persist_after_apply-Keeps, synchronize-Carries, secure_write-Keeps, next-Keeps,
  Keeps,
}
use mayfly_agent.Protocol.CaSync.Step.{
  pin_if_missing, pin_unless, next, ask_helper, acknowledge, persist_pin_if_needed, World,
  persist_after_apply,
}
use mayfly_agent.Errors.{io}
use mayfly_agent.Result.{err, ok}
use mayfly_agent.Protocol.CaSync.Service.{
  generation_path, signing_key_path, at_pin, BundleApplyOutcome, applied, rolled_back,
  CaSyncService,
}
use mayfly_agent.Text.Decimal.{decimal}
use mayfly_agent.Protocol.CaSync.Pass.{synchronize, conclude}
use mayfly_agent.Protocol.CaSync.Load.{read_optional}
use mayfly_agent.Bundle.Types.{CaBundle}
use mayfly_agent.Crates.{Crates}
use mayfly_agent.Prelude.{◌≡◌, Bool, true, false, Option, none, some, if◌then◌else◌}
use mayfly_agent.Text.Chars.{Text, Bytes}

module _ (lib : Crates) (service : CaSyncService) (bytes : Bytes) where
  Pinned : World → Type 0
  Pinned w = w.files.signing_key ≡ some bytes

  after_read-Pinned :
      (bundle : CaBundle) (w : World) (readable : Bool) (recorded : Option Bytes)
      → recorded ≡ some bytes
      → Pinned w
      → Pinned
          (next (w, if readable then ok recorded else err io) (pin_if_missing service bundle)).0
  after_read-Pinned bundle w true none e h = absurd (cc)
  after_read-Pinned bundle w true (some b) e h = h
  after_read-Pinned bundle w false recorded e h = h

  unless-Pinned :
      (bundle : CaBundle) (pinned : Option Text) → Keeps Pinned (pin_unless service bundle pinned)
  unfolding Pinned read_optional
  unless-Pinned bundle (some pinned) w h = h
  unless-Pinned bundle none w h =
      after_read-Pinned bundle w (service.can_read at_pin signing_key_path) w.files.signing_key h h

  pin-Pinned : (bundle : CaBundle) → Keeps Pinned (persist_pin_if_needed service bundle)
  unfolding persist_pin_if_needed
  pin-Pinned bundle = unless-Pinned bundle service.pinned_signing_key

  conclude-Pinned :
      (bundle : CaBundle) (outcome : BundleApplyOutcome)
      → Keeps Pinned (conclude lib service bundle outcome)
  unfolding Pinned conclude acknowledge
  conclude-Pinned bundle applied w h =
      next-Keeps Pinned _ (persist_after_apply lib service bundle w)
        (persist_after_apply-Keeps Pinned lib service bundle
          (secure_write-Keeps Pinned service generation_path (decimal bundle.generation)
            (λ b v g. g))
          (λ b v g. g) (pin-Pinned bundle) (λ b v g. g) w h)
        (λ a v g. g)
  conclude-Pinned bundle rolled_back w h = h

  -- A recorded signing key is never replaced: whatever the server, the helper and the file system
  -- do, a pass leaves an existing pin file as it was.
  pub synchronize_keeps_pin :
      (w : World)
      → w.files.signing_key ≡ some bytes
      → (synchronize lib service w).0.files.signing_key ≡ some bytes
  unfolding Pinned ask_helper
  synchronize_keeps_pin w h =
      synchronize-Carries lib service Pinned Pinned (λ v g. g) w (λ b v g. g) (λ b v g. g)
        (λ persisted bundle o.
          settle-Carries lib service Pinned Pinned (λ v g. g) persisted bundle (pin-Pinned bundle)
            (λ b v g. g) (λ p v g. g) (λ outcome e. conclude-Pinned bundle outcome))
        h
