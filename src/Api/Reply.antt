-- ===== src/Api/Reply.antt =====
-- The replies of the handlers in pkg/api/handlers (writeJSON and writeError of health.go). A request
-- comes as the arguments that its handler reads: the token of its context, the id in its path, its
-- body as far as it can be decoded, and its query.
use package.shinzo_scheduler_service.Base.{ℕ, String, Bool, true, false, Result, ok, err}

pub data Reply (A : Type 0) : Type 0 where
  write_json : ℕ → A → Reply A
  write_error : ℕ → String → Reply A

-- A handler: the reply, and the state after it.
abbrev pub Handler : Type 0 → Type 0 → Type 0
Handler S A = S → Reply A × S

module _ {S A : Type 0} where
  abbrev pub refuse : ℕ → String → Handler S A
  refuse code msg s = (write_error code msg, s)

  abbrev pub answer : ℕ → A → Handler S A
  answer code body s = (write_json code body, s)

-- `http.StatusOK` and so on.
abbrev pub status_ok : ℕ
status_ok = 200

abbrev pub status_created : ℕ
status_created = 201

abbrev pub status_bad_request : ℕ
status_bad_request = 400

abbrev pub status_unauthorized : ℕ
status_unauthorized = 401

abbrev pub status_payment_required : ℕ
status_payment_required = 402

abbrev pub status_forbidden : ℕ
status_forbidden = 403

abbrev pub status_not_found : ℕ
status_not_found = 404

abbrev pub status_internal_server_error : ℕ
status_internal_server_error = 500

-- The handler wrote a body with `writeJSON` that is no error.
abbrev pub succeeds : {A : Type 0} → Reply A → Bool
succeeds (write_json code body) = true
succeeds (write_error code msg) = false

-- A call that writes: its error becomes the reply `code`, with the error's text or another.
abbrev pub reply_to : {A B : Type 0} → Result A → (String → Reply B) → (A → Reply B) → Reply B
reply_to (ok a) failed done = done a
reply_to (err e) failed done = failed e
