-- ===== src/Sdk/Errors.antt =====
-- sdk/go/errors.go: the errors that the relay's codes stand for.
use relayly.Base.{String, Option, none, some, ◌==◌, string_eq, if◌then◌else◌}

-- `ErrInvalidCode` and the others that the server's codes select.
pub data ServerError : Type 0 where
  invalid_code code_expired already_paired peer_offline rate_limited : ServerError
  malformed key_mismatch internal : ServerError

unfoldable pub sentinel : String → ServerError
sentinel code =
    if code == "invalid_code"
    then invalid_code
    else if code == "code_expired"
    then code_expired
    else if code == "already_paired"
    then already_paired
    else if code == "peer_offline"
    then peer_offline
    else if code == "rate_limited"
    then rate_limited
    else if code == "malformed"
    then malformed
    else if code == "key_mismatch"
    then key_mismatch
    else internal

-- The error, and the server's text that `wireError` wraps round it, if there is one.
pub record WireError : Type 0 where
  pub code : ServerError
  pub message : Option String

unfoldable pub err_for_code : String → String → WireError
err_for_code code message = record {
  code = sentinel code;
  message = if message == "" then none else some message;
}
