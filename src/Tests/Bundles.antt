-- ===== src/Tests/Bundles.antt =====
-- Instances of the theorems on bundles.
use mayfly_agent.Bundle.Accepted.{accepted_published, from_response_sound, IsAccepted}
use mayfly_agent.Bundle.Render.KeyLine.{trusted_key}
use mayfly_agent.Result.{ok}
use mayfly_agent.Bundle.Render.{render_trusted_user_ca_keys}
use mayfly_agent.Ssh.TrustedCa.{parse}
use mayfly_agent.Prelude.{◌≡◌, some, [], ◌∷◌}
use mayfly_agent.Tests.Toy.{
  toy, toy-PrintsHex, toy-ReadsOpensshLines, response, bundle_of_response, five_seconds,
  response_accepted, signing_line, key_a, key_b,
}

from_response_sound_example :
    IsAccepted toy response five_seconds (some signing_line) bundle_of_response
from_response_sound_example =
    from_response_sound toy response five_seconds (some signing_line) bundle_of_response
      response_accepted

accepted_published_example :
    parse (render_trusted_user_ca_keys bundle_of_response)
    ≡ ok (trusted_key key_a ∷ trusted_key key_b ∷ [])
accepted_published_example =
    accepted_published toy response five_seconds (some signing_line) bundle_of_response
      toy-ReadsOpensshLines toy-PrintsHex response_accepted
