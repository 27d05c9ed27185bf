-- ===== src/Protocol/CaSync/Delegated.antt =====
-- What the privileged helper is asked to do.
use mayfly_agent.Protocol.CaSync.Keeps.{
  settle-Carries, synchronize-Carries, persist_after_apply-Keeps, persist_pin_if_needed-Keeps,
  secure_write-Keeps, next-Keeps, Keeps, IsOffered,
}
use mayfly_agent.Protocol.CaSync.Pass.{synchronize, conclude}
use mayfly_agent.Protocol.CaSync.Step.{ask_helper, acknowledge, persist_after_apply, World}
use mayfly_agent.Protocol.CaSync.Service.{
  generation_path, BundleApplyOutcome, PersistedState, applied, rolled_back, CaSyncService,
}
use mayfly_agent.Text.Decimal.{decimal}
use mayfly_agent.Bundle.Render.{render_trusted_user_ca_keys}
use mayfly_agent.Ssh.TrustedCa.{parse}
use mayfly_agent.Result.{is_ok}
use mayfly_agent.Bundle.Types.{CaBundle}
use mayfly_agent.Crates.{Crates}
use mayfly_agent.Prelude.{◌≡◌, refl, ap, ◌⊎◌, inl, inr, true, ◌∷◌}

module _ (lib : Crates) (service : CaSyncService) (start : World) where
  -- Nothing was handed to the helper, or one file: that of an offered bundle, and it parses.
  abbrev pub NoneOrAccepted : World → Type 0
  NoneOrAccepted w =
      (w.delegated ≡ start.delegated)
      ⊎ ((persisted : PersistedState) × ((bundle : CaBundle) × (IsOffered lib service start.files
                persisted bundle
              × ((is_ok (parse (render_trusted_user_ca_keys bundle)) ≡ true)
                  × (w.delegated ≡ render_trusted_user_ca_keys bundle ∷ start.delegated)))))

  conclude-Accepted :
      (bundle : CaBundle) (outcome : BundleApplyOutcome)
      → Keeps NoneOrAccepted (conclude lib service bundle outcome)
  unfolding conclude acknowledge
  conclude-Accepted bundle applied w h =
      next-Keeps NoneOrAccepted _ (persist_after_apply lib service bundle w)
        (persist_after_apply-Keeps NoneOrAccepted lib service bundle
          (secure_write-Keeps NoneOrAccepted service generation_path (decimal bundle.generation)
            (λ b v g. g))
          (λ b v g. g) (persist_pin_if_needed-Keeps NoneOrAccepted service bundle (λ b v g. g))
          (λ b v g. g) w h)
        (λ a v g. g)
  conclude-Accepted bundle rolled_back w h = h

  Untouched : World → Type 0
  Untouched w = w.delegated ≡ start.delegated

  -- In one pass the helper is asked at most once, and only to install the file rendered for a
  -- bundle that was fetched, authenticated and validated in this pass, which the agent's own
  -- parser has accepted.
  pub synchronize_delegates : NoneOrAccepted (synchronize lib service start).0
  unfolding Untouched ask_helper
  synchronize_delegates =
      synchronize-Carries lib service Untouched NoneOrAccepted (λ v g. inl g) start (λ b v g. g)
        (λ b v g. g)
        (λ persisted bundle o.
          settle-Carries lib service Untouched NoneOrAccepted (λ v g. inl g) persisted bundle
            (persist_pin_if_needed-Keeps Untouched service bundle (λ b v g. g)) (λ b v g. g)
            (λ p v g.
              inr
                (persisted, (bundle, (o, (p, ap (λ t. render_trusted_user_ca_keys bundle ∷ t) g)))))
            (λ outcome e. conclude-Accepted bundle outcome))
        refl
