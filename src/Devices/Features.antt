-- ===== src/Devices/Features.antt =====
-- internal/proxy/features.go: the features that `host:features` names, by API level.
use sair.Base.{ℕ, List, [], ◌∷◌, ◌++◌, leb, if◌then◌else◌}
use sair.Text.{join, Bytes, utf8}

-- `modernSdk`.
abbrev pub modern_sdk : ℕ
modern_sdk = 36

since : ℕ → ℕ → List Bytes → List Bytes
since level sdk fs = if leb level sdk then fs else []

unfoldable pub features_of : ℕ → List Bytes
unfolding since
features_of sdk =
    utf8 "openscreen_mdns"
    ∷ (since 24 sdk (utf8 "shell_v2" ∷ utf8 "cmd" ∷ [])
        ++ (since 26 sdk (utf8 "stat_v2" ∷ utf8 "ls_v2" ∷ [])
            ++ (since 28 sdk (utf8 "fixed_push_mkdir" ∷ [])
                ++ (since 29 sdk (utf8 "apex" ∷ utf8 "fixed_push_symlink_timestamp" ∷ [])
                    ++ since 30 sdk (
                        utf8 "abb_exec"
                        ∷ utf8 "remount_shell"
                        ∷ utf8 "track_app"
                        ∷ utf8 "sendrecv_v2"
                        ∷ utf8 "sendrecv_v2_brotli"
                        ∷ utf8 "sendrecv_v2_lz4"
                        ∷ utf8 "sendrecv_v2_zstd"
                        ∷ utf8 "sendrecv_v2_dry_run_send"
                        ∷ [])))))

unfoldable pub features_for_sdk : ℕ → Bytes
unfolding features_of
features_for_sdk sdk = join (utf8 ",") (features_of sdk)
