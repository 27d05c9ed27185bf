-- ===== src/Ipc/Client/Outcomes.antt =====
-- When the client reports that a bundle was applied.
use mayfly_agent.Result.{first_ok, ok}
use mayfly_agent.Ipc.Protocol.{apply_request, Response}
use mayfly_agent.Ipc.Client.{
  is_unauthenticated, bundle_outcome, HelperClient, call, apply_bundle, is_rolled_back,
}
use mayfly_agent.Protocol.CaSync.Service.{BundleApplyOutcome}
use mayfly_agent.Prelude.{◌≡◌, refl, ◌⊎◌, inl, inr, true, false, arith}
use mayfly_agent.Text.Chars.{Text}

pub record IsRolledBack (resp : Response) : Type 0 where
  pub failed : resp.is_ok ≡ false
  pub authenticated : is_unauthenticated resp.detail ≡ false
  pub restored : is_rolled_back resp.outcome ≡ true

bundle_outcome-applied :
    (resp : Response) → bundle_outcome resp ≡ ok BundleApplyOutcome.applied → resp.is_ok ≡ true
unfolding bundle_outcome
bundle_outcome-applied resp h = ground arith

bundle_outcome-rolled_back :
    (resp : Response) → bundle_outcome resp ≡ ok BundleApplyOutcome.rolled_back → IsRolledBack resp
unfolding bundle_outcome
bundle_outcome-rolled_back resp h = record {
  failed = ground arith;
  authenticated = ground arith;
  restored = ground arith;
}

-- `Applied` is reported only when the helper answered this very request with success, and
-- `RolledBack` only when it answered with a failure that is no refused token and says that the
-- previous file was restored.
pub apply_bundle_sound :
    (client : HelperClient) (content : Text) (outcome : BundleApplyOutcome)
    → apply_bundle client content ≡ ok outcome
    → (resp : Response) × ((call client (apply_request client.token content) ≡ ok resp)
        × (((outcome ≡ BundleApplyOutcome.applied) × (resp.is_ok ≡ true))
            ⊎ ((outcome ≡ BundleApplyOutcome.rolled_back) × IsRolledBack resp)))
unfolding apply_bundle
apply_bundle_sound client content outcome h =
    let (resp, (h1, answered)) = first_ok (call client (apply_request client.token content)) _ h in
    (resp, (answered, by_outcome outcome resp h1))
  where
    by_outcome :
        (outcome : BundleApplyOutcome) (resp : Response)
        → bundle_outcome resp ≡ ok outcome
        → ((outcome ≡ BundleApplyOutcome.applied) × (resp.is_ok ≡ true))
          ⊎ ((outcome ≡ BundleApplyOutcome.rolled_back) × IsRolledBack resp)
    by_outcome BundleApplyOutcome.applied resp e = inl (refl, bundle_outcome-applied resp e)
    by_outcome BundleApplyOutcome.rolled_back resp e = inr (refl, bundle_outcome-rolled_back resp e)
