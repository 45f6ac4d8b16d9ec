-- ===== src/Api/Code.antt =====
-- The status codes of net/http that internal/infra/httpapi writes.
use skills.Prelude.{ℕ}

abbrev pub ok : ℕ
ok = 200

abbrev pub accepted : ℕ
accepted = 202

abbrev pub no_content : ℕ
no_content = 204

abbrev pub bad_request : ℕ
bad_request = 400

abbrev pub not_found : ℕ
not_found = 404

abbrev pub conflict : ℕ
conflict = 409

abbrev pub unprocessable_entity : ℕ
unprocessable_entity = 422

abbrev pub internal_server_error : ℕ
internal_server_error = 500

abbrev pub service_unavailable : ℕ
service_unavailable = 503
