-- ===== src/Api/Auth.antt =====
-- pkg/api/middleware/auth.go: the token of the Authorization header. It is not verified here.
use package.shinzo_scheduler_service.Base.{String, ◌||◌, Result, ok, err, ◌==◌, if◌then◌else◌}

-- `trim_bearer` is `strings.TrimPrefix(header, "Bearer ")`. An error is the reply 401.
unfoldable pub require_api_key : (String → String) → String → Result String
require_api_key trim_bearer header =
    let token = trim_bearer header in
    if header == ""
    then err "missing Authorization header"
    else if token == header || token == ""
    then err "invalid Authorization format, expected: Bearer <key>"
    else ok token
