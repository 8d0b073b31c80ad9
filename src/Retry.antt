-- ===== src/Retry.antt =====
-- go/v1/retry.go: which errors are retried, the delay between attempts, and the unary interceptor.
use fx_sdk.Errors.{Error, context, eof, resource_exhausted, rpc_failed, unavailable}
use fx_sdk.Common.{Bool, false, true, ◌||◌}
pub mod Backoff
pub mod Unary
pub mod Reconnect

-- `isRetryable`; `status.FromError` looks through wrapped errors.
unfoldable pub is_retryable : Error → Bool
is_retryable (rpc_failed unavailable) = true
is_retryable (rpc_failed resource_exhausted) = true
is_retryable (context words e) = is_retryable e
is_retryable _ = false

-- `errors.Is(err, io.EOF)`
abbrev is_eof : Error → Bool
is_eof eof = true
is_eof (context words e) = is_eof e
is_eof _ = false

-- `isStreamRetryable`
unfoldable pub is_stream_retryable : Error → Bool
unfolding is_retryable
is_stream_retryable e = is_eof e || is_retryable e
