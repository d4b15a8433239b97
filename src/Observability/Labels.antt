-- ===== src/Observability/Labels.antt =====
-- The labels of the routes in internal/observability/metrics.go.
use go_rate_limiter.Prelude.{Bool, ◌≡◌, ◌||◌, true, false, List, [], ◌∷◌, arith}
use go_rate_limiter.Prelude.Text.{Text, txt, text_eq, text_eq_refl}
use go_rate_limiter.Observability.{normalize_route}

-- The labels of the routes.
abbrev pub route_labels : List Text
route_labels =
    txt "/health/live"
    ∷ txt "/health/ready"
    ∷ txt "/metrics"
    ∷ txt "/v1/check"
    ∷ txt "/v1/config/tenants"
    ∷ txt "/v1/config/tenants/{id}/rules"
    ∷ txt "unknown"
    ∷ []

abbrev pub is_label : List Text → Text → Bool
is_label [] s = false
is_label (t ∷ ts) s = text_eq s t || is_label ts s

-- Whatever path is asked for, the label of its route is one of seven.
pub normalize_route-label : (path : Text) → is_label route_labels (normalize_route path) ≡ true
unfolding normalize_route
normalize_route-label path =
    ground (arith, text_eq_refl (txt "unknown"), text_eq_refl (txt "/v1/config/tenants/{id}/rules"))
