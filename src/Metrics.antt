-- ===== src/Metrics.antt =====
-- internal/metrics/metrics.go: the counters of the service and their text. A counter is an int64 that
-- no run of the service fills.
use mrdns.Prelude.{ℕ, ◌+◌, String, [], ◌∷◌, ◌==◌, if◌then◌else◌}
use mrdns.Text.{decimal_from}
use mrdns.Zone.Build.{concat}

pub record Metrics : Type 0 where
  pub http_requests : ℕ
  pub login_failures : ℕ
  pub deploy_success : ℕ
  pub deploy_partial : ℕ
  pub deploy_failed : ℕ

abbrev pub zeroed : Metrics
zeroed = record {
  http_requests = 0;
  login_failures = 0;
  deploy_success = 0;
  deploy_partial = 0;
  deploy_failed = 0;
}

unfoldable pub observe_deploy : String → Metrics → Metrics
observe_deploy status m =
    if status == "success"
    then record m { deploy_success = m.deploy_success + 1 }
    else if status == "partial"
    then record m { deploy_partial = m.deploy_partial + 1 }
    else record m { deploy_failed = m.deploy_failed + 1 }

-- `%d` of an int64 that is not negative, which has at most nineteen digits
abbrev pub decimal_long : ℕ → String
decimal_long n = decimal_from 19 n

-- what `Handler` writes
unfoldable pub exposition : Metrics → String
exposition m = concat (
    "# HELP mrdns_http_requests_total Total HTTP requests served.\n"
    ∷ "# TYPE mrdns_http_requests_total counter\n"
    ∷ "mrdns_http_requests_total "
    ∷ decimal_long m.http_requests
    ∷ "\n# HELP mrdns_login_failures_total Failed login attempts.\n"
    ∷ "# TYPE mrdns_login_failures_total counter\n"
    ∷ "mrdns_login_failures_total "
    ∷ decimal_long m.login_failures
    ∷ "\n# HELP mrdns_deploys_total Deploys by outcome.\n"
    ∷ "# TYPE mrdns_deploys_total counter\n"
    ∷ "mrdns_deploys_total{status=\"success\"} "
    ∷ decimal_long m.deploy_success
    ∷ "\nmrdns_deploys_total{status=\"partial\"} "
    ∷ decimal_long m.deploy_partial
    ∷ "\nmrdns_deploys_total{status=\"failed\"} "
    ∷ decimal_long m.deploy_failed
    ∷ "\n"
    ∷ [])
