-- ===== src/Grab/Errors.antt =====
-- grab/error.go.
use downloadmgr.Prelude.{ℕ, Bool, true, false, Text}

-- The error values, and `other` for an error that the standard library or a hook returns.
-- `context_error` is what the context of a request answers when it is cancelled.
pub data GrabError : Type 0 where
  err_bad_length err_bad_checksum err_no_filename : GrabError
  err_no_timestamp err_file_exists context_error : GrabError
  status_code_error : ℕ → GrabError
  other : Text → GrabError

unfoldable pub is_status_code_error : GrabError → Bool
is_status_code_error (status_code_error n) = true
is_status_code_error _ = false
