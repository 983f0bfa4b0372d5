-- ===== src/Resilience/Retry/Tests.antt =====
-- The retry loops on an operation that fails until its third call.
use chainfx_payment_core.Common.{ℕ, ◌+◌, ◌≡◌, refl, false, none, some, ltb, if◌then◌else◌}
use chainfx_payment_core.Common.Int.{pos, negsuc}
use chainfx_payment_core.Resilience.Retry.{
  World, exhausted, success, returned, at_least_one, is_retryable, do_with_context,
  execute_with_retry,
}
use chainfx_payment_core.Resilience.Retry.Attempts.{Counts, Ends, do_with_context-Ends}

-- The state is the number of calls made, and an error is the number of the call that failed.
abbrev third_time : World ℕ ℕ
third_time = record {
  operation = λ s. (if ltb s 2 then some (s + 1) else none, s + 1);
  context_error = λ s. none;
  wait = λ n s. (none, s);
}

two_attempts : do_with_context (pos 2) none third_time 0 ≡ (exhausted 2, 2)
unfolding do_with_context
two_attempts = refl

three_attempts : do_with_context (pos 3) none third_time 0 ≡ (success, 3)
unfolding do_with_context
three_attempts = refl

not_retryable : do_with_context (pos 3) (some (λ e. false)) third_time 0 ≡ (returned 1, 1)
unfolding do_with_context
not_retryable = refl

-- With no attempt allowed the paymaster's loop reports success and has called nothing.
no_attempts : execute_with_retry (negsuc 0) (λ e. false) third_time 0 ≡ (none, 0)
unfolding execute_with_retry
no_attempts = refl

third_time-Counts : Counts third_time (λ s. s)
third_time-Counts = record { by_operation = λ s. refl; not_by_wait = λ n s. refl }

do_with_context-Ends_example :
    Ends third_time
      (λ s. s)
      (is_retryable none)
      (at_least_one (pos 3))
      0
      (do_with_context (pos 3) none third_time 0)
do_with_context-Ends_example =
    do_with_context-Ends third_time (λ s. s) third_time-Counts (pos 3) none 0
