-- ===== src/Tests/SettingRuns.antt =====
-- Runs of the quota's checks and of the readers of settings.
use code_executor_api.Prelude.{
  List, ◌≡◌, ◌≤◌, ◌<◌, ◌*◌, ◌+◌, refl, Text, codes, Option, some, [], ◌∷◌, ok, true, ℤ, pos,
  text_eq, not, none, Lacks, contains, arith,
}
use code_executor_api.Quota.{
  Numbers, QuotaSettings, Process, exits, run_xfs_quota, is_done, setup_command, report_command,
  apply_quota, verify_quota_hard_limit, find_limit, reports_limit, bhard_kib, bhard_kib-bounds,
  apply_quota-reports_limit,
}
use code_executor_api.Headers.{content_disposition, content_disposition-Lacks}
use code_executor_api.Config.Env.{read_int_env, parse_port}

bhard_kib-bounds_example : (1025 ≤ 1024 * bhard_kib 1025) × (1024 * bhard_kib 1025 < 1025 + 1024)
bhard_kib-bounds_example = bhard_kib-bounds 1025

abbrev numbers : Numbers
numbers = record {
  is_digit = λ t. not (text_eq t (codes "-"));
  value = λ t. 5;
  text = λ n. codes "1000";
}

abbrev quota_settings : QuotaSettings
quota_settings = record {
  quota_command = codes "xfs_quota" ∷ [];
  mountpoint = some (codes "/srv");
  max_session_size = 1025;
  max_session_entries = 100;
}

abbrev call : List Text → Process
call argv = exits (pos 0) (
    (codes "#0" ∷ codes "9" ∷ [])
    ∷ []
    ∷ (codes "#1000" ∷ codes "0" ∷ codes "0" ∷ codes "5" ∷ [])
    ∷ [])

quota_applied : (apply_quota numbers quota_settings call (codes "/srv/s") 1000).0 ≡ true
unfolding apply_quota verify_quota_hard_limit find_limit run_xfs_quota text_eq
quota_applied = refl

apply_quota-reports_limit_example :
    ((apply_quota numbers quota_settings call (codes "/srv/s") 1000).1
      ≡ setup_command numbers quota_settings (codes "/srv") (codes "/srv/s") 1000
        ∷ report_command quota_settings (codes "/srv") (codes "-b")
        ∷ report_command quota_settings (codes "/srv") (codes "-i")
        ∷ [])
    × (is_done (
          run_xfs_quota
            (call (setup_command numbers quota_settings (codes "/srv") (codes "/srv/s") 1000)))
        ≡ true)
    × (reports_limit numbers 1000
          (run_xfs_quota (call (report_command quota_settings (codes "/srv") (codes "-b"))))
        ≡ true)
    × (reports_limit numbers 1000
          (run_xfs_quota (call (report_command quota_settings (codes "/srv") (codes "-i"))))
        ≡ true)
apply_quota-reports_limit_example =
    apply_quota-reports_limit numbers quota_settings call (codes "/srv") (codes "/srv/s") 1000 refl
      quota_applied

abbrev int_of : Text → Option ℤ
int_of t = some (pos 8080)

read_int_env_run :
    read_int_env int_of (some (codes "8080")) (pos 40003) (some (pos 1)) ≡ ok (pos 8080)
unfolding read_int_env
read_int_env_run = refl

parse_port_run : parse_port int_of (codes "8080") ≡ ok 8080
unfolding parse_port
parse_port_run = refl

abbrev escaped : Text → Text
escaped t = codes "a%0Ab"

content_disposition-Lacks_example :
    Lacks 10 (content_disposition escaped (97 ∷ 10 ∷ 98 ∷ []) none)
    × Lacks 10 (content_disposition escaped (97 ∷ 10 ∷ 98 ∷ []) (some (codes "attachments")))
unfolding contains
content_disposition-Lacks_example =
    content_disposition-Lacks 10 escaped (97 ∷ 10 ∷ 98 ∷ []) (codes "attachments") (omega arith)
      refl refl
