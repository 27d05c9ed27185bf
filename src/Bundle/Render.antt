-- ===== src/Bundle/Render.antt =====
-- src/protocol/ca_bundle.rs: rendering of the `TrustedUserCAKeys` file.
pub mod KeyLine
pub mod Published
use mayfly_agent.Prelude.{List, [], ◌∷◌, ◌++◌}
use mayfly_agent.Text.Chars.{Text, codes}
use mayfly_agent.Text.Decimal.{decimal}
use mayfly_agent.Text.Words.{split_whitespace}
use mayfly_agent.Bundle.Types.{CaBundleKey, CaBundle}

-- The first two tokens of a key line, with the defaults of the source.
unfoldable pub algorithm_of : List Text → Text
algorithm_of [] = codes "ssh-ed25519"
algorithm_of (algorithm ∷ more) = algorithm

unfoldable pub blob_of : List Text → Text
blob_of [] = []
blob_of (algorithm ∷ []) = []
blob_of (algorithm ∷ blob ∷ more) = blob

abbrev pub comment_of : Text → Text
comment_of key_id = codes "mayfly:" ++ key_id

unfoldable pub render_key_line : CaBundleKey → Text
unfolding algorithm_of blob_of
render_key_line key =
    let tokens = split_whitespace key.public_key in
    algorithm_of tokens ++ (32 ∷ (blob_of tokens ++ (32 ∷ comment_of key.key_id)))

-- The loop over the keys.
unfoldable pub render_keys : List CaBundleKey → Text
render_keys [] = []
render_keys (key ∷ keys) = render_key_line key ++ (10 ∷ render_keys keys)

unfoldable pub render_trusted_user_ca_keys : CaBundle → Text
render_trusted_user_ca_keys bundle =
    codes "# Managed by mayfly-agent. DO NOT EDIT."
    ++ (10
        ∷ (codes "# bundle_version: "
            ++ (decimal bundle.bundle_version
                ++ (10
                    ∷ (codes "# generation: "
                        ++ (decimal bundle.generation
                            ++ (10
                                ∷ (codes "# fingerprint: "
                                    ++ (bundle.fingerprint
                                        ++ (10 ∷ render_keys bundle.keys))))))))))
