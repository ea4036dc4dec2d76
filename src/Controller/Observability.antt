-- ===== src/Controller/Observability.antt =====
-- The dashboards and alerts of an Application: desiredObservability, dashboardJSON and alertRules of
-- internal/controller/application_controller.go.
use Prim.Native.String.{◌++◌ as ◌⧺◌}
use forge_platform.Base.{String, [], ◌∷◌}
use forge_platform.Controller.{Application, Labels, desired_replicas, itoa}

-- dashboardJSON
unfoldable pub dashboard_json : Application → String
dashboard_json app =
    "{\n" ⧺ "  \"title\": \"Forge / " ⧺ app.name ⧺ "\",\n" ⧺ "  \"uid\": \"forge-" ⧺ app.name
    ⧺ "\",\n" ⧺ "  \"tags\": [\"forge\", \"managed\"],\n" ⧺ "  \"panels\": [\n"
    ⧺ "    {\"title\": \"Request rate\", \"type\": \"timeseries\", \"targets\": [{\"expr\": \"sum(rate(http_requests_total{app=\\\""
    ⧺ app.name ⧺ "\\\"}[5m]))\"}]},\n"
    ⧺ "    {\"title\": \"p95 latency\", \"type\": \"timeseries\", \"targets\": [{\"expr\": \"histogram_quantile(0.95, sum(rate(http_request_duration_seconds_bucket{app=\\\""
    ⧺ app.name ⧺ "\\\"}[5m])) by (le))\"}]},\n"
    ⧺ "    {\"title\": \"Ready replicas\", \"type\": \"stat\", \"targets\": [{\"expr\": \"kube_deployment_status_replicas_ready{deployment=\\\""
    ⧺ app.name ⧺ "\\\"}\"}]}\n" ⧺ "  ]\n" ⧺ "}"

-- alertRules
unfoldable pub alert_rules : Application → String
unfolding desired_replicas
alert_rules app =
    "groups:\n"
    ⧺ "  - name: forge-"
    ⧺ app.name
    ⧺ "\n"
    ⧺ "    rules:\n"
    ⧺ "      - alert: HighErrorRate\n"
    ⧺ "        expr: sum(rate(http_requests_total{app=\""
    ⧺ app.name
    ⧺ "\",status=~\"5..\"}[5m])) / sum(rate(http_requests_total{app=\""
    ⧺ app.name
    ⧺ "\"}[5m])) > 0.05\n"
    ⧺ "        for: 10m\n"
    ⧺ "        labels:\n"
    ⧺ "          severity: page\n"
    ⧺ "          forge_application: "
    ⧺ app.name
    ⧺ "\n"
    ⧺ "        annotations:\n"
    ⧺ "          summary: \"High 5xx error rate for "
    ⧺ app.name
    ⧺ "\"\n"
    ⧺ "      - alert: InsufficientReplicas\n"
    ⧺ "        expr: kube_deployment_status_replicas_ready{deployment=\""
    ⧺ app.name
    ⧺ "\"} < "
    ⧺ itoa (desired_replicas app)
    ⧺ "\n"
    ⧺ "        for: 15m\n"
    ⧺ "        labels:\n"
    ⧺ "          severity: page\n"
    ⧺ "          forge_application: "
    ⧺ app.name
    ⧺ "\n"
    ⧺ "        annotations:\n"
    ⧺ "          summary: \""
    ⧺ app.name
    ⧺ " has fewer ready replicas than desired\"\n"

pub record ConfigMap : Type 0 where
  pub name : String
  pub namespace : String
  pub labels : Labels
  pub files : Labels

-- desiredObservability
unfoldable pub desired_observability : Application → ConfigMap
unfolding dashboard_json alert_rules
desired_observability app = record {
  name = app.name ⧺ "-observability";
  namespace = app.namespace;
  labels =
      ("app.kubernetes.io/managed-by", "forge")
      ∷ ("forge.dev/application", app.name)
      ∷ ("grafana_dashboard", "1")
      ∷ ("forge.dev/prometheus-rules", "true")
      ∷ [];
  files = ("dashboard.json", dashboard_json app) ∷ ("alerts.yaml", alert_rules app) ∷ [];
}
