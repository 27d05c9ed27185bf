-- ===== src/Tests/Sshd.antt =====
-- Runs of src/ssh/sshd_config.rs on small configurations.
use mayfly_agent.Text.Chars.{starts_with_code, to_ascii_lowercase, is_whitespace, text_eq, codes}
use mayfly_agent.Text.Words.{split_whitespace}
use mayfly_agent.Text.Lines.{lines}
use mayfly_agent.Text.Trim.{trim_end_matches, trim}
use mayfly_agent.Prelude.{◌≡◌, refl, true, false}
use mayfly_agent.Ssh.SshdConfig.{includes_dropin_dir, dropin_dir}

stock_config :
    includes_dropin_dir (codes "Port 22\nInclude /etc/ssh/sshd_config.d/*.conf\n") dropin_dir ≡ true
unfolding includes_dropin_dir trim trim_end_matches lines split_whitespace text_eq is_whitespace
    to_ascii_lowercase starts_with_code
stock_config = refl

commented_config :
    includes_dropin_dir (codes "# Include /etc/ssh/sshd_config.d/*.conf\n") dropin_dir ≡ false
unfolding includes_dropin_dir trim trim_end_matches lines split_whitespace text_eq is_whitespace
    to_ascii_lowercase starts_with_code
commented_config = refl
