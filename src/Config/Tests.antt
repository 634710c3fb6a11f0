-- ===== src/Config/Tests.antt =====
-- The default configuration is accepted.
use logsieve.Prelude.{negsuc, none, ◌≡◌, refl}
use logsieve.Config.{default_config, default_output, fill_output, validate_config}

default_accepted : (validate_config default_config).0 ≡ none
unfolding default_config validate_config logsieve.Prelude.is_lower_of
    logsieve.Config.validate_outputs
default_accepted = refl

-- A timeout below 0 is kept.
negative_timeout_kept :
    (fill_output default_config.server (record default_output { timeout = negsuc 4 })).timeout
    ≡ negsuc 4
unfolding fill_output
negative_timeout_kept = refl
