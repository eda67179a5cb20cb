-- ===== src/Log/Streams.antt =====
-- src/config-file.c and src/log.c: which messages a configured level lets through.
use rauc_hawkbit_updater.Base.{ℕ, ◌+◌, ◌^◌, String, ◌≡◌, if◌then◌else◌, str_eq}

-- How far down the levels a name of docs/reference.rst lets messages through: "error" is 2, the bit of
-- GLib's G_LOG_LEVEL_ERROR, and "debug" is 7. Another name counts as "message".
abbrev pub least_urgent : String → ℕ
least_urgent name =
    if str_eq name "error"
    then 2
    else if str_eq name "critical"
    then 3
    else if str_eq name "warning"
    then 4
    else if str_eq name "message"
    then 5
    else if str_eq name "info"
    then 6
    else if str_eq name "debug"
    then 7
    else 5

-- The bits from 0 up to that of the level, and no other: 2 ^ (k + 1) - 1.
abbrev pub LetsThrough : String → ℕ → Type 0
LetsThrough name levels = levels + 1 ≡ 2 ^ (least_urgent name + 1)
