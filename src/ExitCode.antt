-- ===== src/ExitCode.antt =====
-- shellsight/cmd/shellsight/main.go, `exitCode`: the status that a scan ends with.
use shell_sight.Common.{ℕ, if◌then◌else◌}
use shell_sight.Finding.{Tier, suspicious, likely, confirmed, unknown, Verdict}

exit_code_of : Tier → Verdict → ℕ
exit_code_of confirmed v = 4
exit_code_of likely v = 3
exit_code_of suspicious v = 2
exit_code_of unknown v = 5
exit_code_of _ v = if v.incomplete then 5 else 0

unfoldable pub exit_code : Verdict → ℕ
unfolding exit_code_of
exit_code v = exit_code_of v.tier v
