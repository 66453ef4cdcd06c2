-- ===== src/Provider/Retry.antt =====
-- pkg/provider/retry.go: a provider that calls another one again after a transient error. Durations
-- are nanoseconds. Go's float64 and math/rand are the parameter `Floats`, timers and contexts
-- `Clock`, and what the package's errors.go reads off an error `ErrorKinds`. A panic of the inner
-- provider, which passes through, is not modelled.
pub mod Delay
pub mod Calls
mod Tests
use galdor.Prelude.{
  ℕ, zero, suc, ◌+◌, ◌-◌, ◌*◌, min, ℤ, pos, negsuc, is_positive, String, Bool, true, false, not,
  ◌||◌, Option, none, some, if◌then◌else◌, ltb, leb,
}
use galdor.Graph.Run.{positive_or}

-- The tests and operations on float64 that the file uses, and `rand.Float64`.
pub record Floats (F W : Type 0) : Type 0 where
  pub of_int : ℤ → F
  pub to_int : F → ℤ
  pub quarter : F
  pub is_zero : F → Bool
  pub less : F → F → Bool
  pub at_most : F → F → Bool
  pub plus : F → F → F
  pub minus : F → F → F
  pub times : F → F → F
  pub random : W → F × W

-- `ctx.Err()`, and the wait of `sleepCtx` for a timer or the end of the context.
pub record Clock (Ctx W X : Type 0) : Type 0 where
  pub ctx_err : Ctx → W → Option X × W
  pub wait : Ctx → ℤ → W → Option X × W

-- `errors.Is` at `ErrRateLimited` and `ErrServer`, and the `RetryAfter` of an `APIError`.
pub record ErrorKinds (X : Type 0) : Type 0 where
  pub is_rate_limited : X → Bool
  pub is_server : X → Bool
  pub retry_after : X → Option ℤ

pub record RetryConfig (F W X : Type 0) : Type 0 where
  pub max_attempts : ℤ
  pub initial_delay : ℤ
  pub max_delay : ℤ
  pub multiplier : F
  pub jitter : F
  pub on_retry : Option (ℕ → ℤ → X → W → W)

-- A configuration with the defaults filled in.
pub record Policy (F W X : Type 0) : Type 0 where
  pub max_attempts : ℕ
  pub initial_delay : ℕ
  pub max_delay : ℕ
  pub multiplier : F
  pub jitter : F
  pub on_retry : Option (ℕ → ℤ → X → W → W)

-- What a failed call returns: the error of the context, the inner provider's, or the last one after
-- this many attempts.
pub data RetryErr (X : Type 0) : Type 0 where
  context_ended : X → RetryErr X
  not_retried : X → RetryErr X
  exhausted : ℕ → Option X → RetryErr X

-- `time.Second`.
abbrev pub second : ℕ
second = 1000000000

abbrev pub max_retry_after_seconds : ℕ
max_retry_after_seconds = 24 * 60 * 60

-- `IsRetryable`.
abbrev pub is_retryable : {X : Type 0} → ErrorKinds X → X → Bool
is_retryable ek x = ek.is_rate_limited x || ek.is_server x

-- `d > max`.
abbrev pub exceeds : ℕ → ℤ → Bool
exceeds max (pos d) = ltb max d
exceeds max (negsuc d) = false

abbrev pub is_below_zero : ℤ → Bool
is_below_zero (pos d) = false
is_below_zero (negsuc d) = true

module _ {F W : Type 0} (fl : Floats F W) where
  abbrev pub one : F
  one = fl.of_int (pos 1)

  -- `withDefaults`.
  abbrev pub default_multiplier : F → F
  default_multiplier m =
      let m = if fl.is_zero m then fl.of_int (pos 2) else m in if fl.less m one then one else m

  unfoldable pub with_defaults : {X : Type 0} → RetryConfig F W X → Policy F W X
  with_defaults cfg = record {
    max_attempts = positive_or cfg.max_attempts 3;
    initial_delay = positive_or cfg.initial_delay second;
    max_delay = positive_or cfg.max_delay (30 * second);
    multiplier = default_multiplier cfg.multiplier;
    jitter = if fl.is_zero cfg.jitter then fl.quarter else cfg.jitter;
    on_retry = cfg.on_retry;
  }

  -- A jitter of at most one.
  abbrev pub capped : F → F
  capped j = if fl.less one j then one else j

  unfoldable pub apply_jitter : ℤ → F → W → ℤ × W
  apply_jitter d j w =
      if fl.at_most j (fl.of_int (pos 0)) || not (is_positive d)
      then (d, w)
      else let (r, w') = fl.random w in
        let factor =
          fl.plus one (fl.times (fl.minus (fl.times r (fl.of_int (pos 2))) one) (capped j)) in
        (fl.to_int (fl.times (fl.of_int d) factor), w')

  unfoldable pub apply_jitter_up : ℤ → F → W → ℤ × W
  apply_jitter_up d j w =
      if fl.at_most j (fl.of_int (pos 0)) || not (is_positive d)
      then (d, w)
      else let (r, w') = fl.random w in
        let factor = fl.plus one (fl.times r (capped j)) in
        (fl.to_int (fl.times (fl.of_int d) factor), w')

  -- The loop that multiplies the delay, `n` times at most.
  unfoldable pub climb : ℕ → F → F → F → F
  climb zero m max f = f
  climb (suc n) m max f =
      let grown = fl.times f m in
      let rest = climb n m max grown in if fl.at_most max grown then max else rest

  module _ {X : Type 0} (ek : ErrorKinds X) (cfg : Policy F W X) where
    abbrev pub within : ℤ × W → Option ℤ × W
    within (d, w) = (some (if exceeds cfg.max_delay d then pos cfg.max_delay else d), w)

    abbrev pub within_or_max : ℤ × W → Option ℤ × W
    within_or_max (d, w) =
        (some (if is_below_zero d || exceeds cfg.max_delay d then pos cfg.max_delay else d), w)

    -- The delay that the server asks for.
    abbrev pub server_delay : ℕ → W → Option ℤ × W
    server_delay secs w =
        let d = min secs max_retry_after_seconds * second in
        if ltb cfg.max_delay d then (none, w) else within (apply_jitter_up (pos d) cfg.jitter w)

    abbrev pub schedule : ℕ → W → Option ℤ × W
    schedule attempt w =
        let f =
          climb (attempt - 1) cfg.multiplier (fl.of_int (pos cfg.max_delay))
            (fl.of_int (pos cfg.initial_delay)) in
        within_or_max (apply_jitter (fl.to_int f) cfg.jitter w)

    abbrev pub delay_after : Option ℤ → ℕ → W → Option ℤ × W
    delay_after (some (pos (suc n))) attempt w = server_delay (suc n) w
    delay_after (some (pos zero)) attempt w = schedule attempt w
    delay_after (some (negsuc n)) attempt w = schedule attempt w
    delay_after none attempt w = schedule attempt w

    -- `nextDelay`; `none` gives up.
    unfoldable pub next_delay : ℕ → X → W → Option ℤ × W
    unfolding apply_jitter apply_jitter_up climb
    next_delay attempt x w = delay_after (ek.retry_after x) attempt w

    module _ {Ctx : Type 0} (ck : Clock Ctx W X) where
      unfoldable pub sleep_ctx : Ctx → ℤ → W → Option X × W
      sleep_ctx ctx d w = if is_positive d then ck.wait ctx d w else (none, w)

      abbrev pub notify : ℕ → ℤ → X → W → W
      notify attempt d x w = elim cfg.on_retry [ none ↦ w | some f ↦ f attempt d x w ]

      module _ {A : Type 0} (call : Ctx → W → (Option A × Option X) × W) where
        abbrev pub Answer : Type 0
        Answer = Option A × Option (RetryErr X)

        abbrev pub give_up : Option X → W → Option (Answer × W)
        give_up last w = some ((none, some (exhausted cfg.max_attempts last)), w)

        abbrev pub after_sleep : (W → Option (Answer × W)) → Option X × W → Option (Answer × W)
        after_sleep next (some e, w) = some ((none, some (context_ended e)), w)
        after_sleep next (none, w) = next w

        abbrev pub after_delay :
            (W → Option (Answer × W)) → Ctx → ℕ → X → Option ℤ × W → Option (Answer × W)
        after_delay next ctx attempt x (none, w) = give_up (some x) w
        after_delay next ctx attempt x (some d, w) =
            after_sleep next (sleep_ctx ctx d (notify (attempt + 1) d x w))

        abbrev pub after_call :
            (W → X → Option (Answer × W))
            → Ctx
            → ℕ
            → (Option A × Option X) × W
            → Option (Answer × W)
        after_call next ctx attempt ((resp, none), w) = some ((resp, none), w)
        after_call next ctx attempt ((resp, some x), w) =
            if not (is_retryable ek x)
            then some ((resp, some (not_retried x)), w)
            else if leb cfg.max_attempts attempt
            then give_up (some x) w
            else after_delay (λ v. next v x) ctx attempt x (next_delay attempt x w)

        abbrev pub after_context :
            (W → X → Option (Answer × W)) → Ctx → ℕ → Option X × W → Option (Answer × W)
        after_context next ctx attempt (some e, w) = some ((none, some (context_ended e)), w)
        after_context next ctx attempt (none, w) = after_call next ctx attempt (call ctx w)

        -- The loop over the attempts; `none` means that the fuel ran out.
        unfoldable pub attempts : ℕ → ℕ → Option X → Ctx → W → Option (Answer × W)
        unfolding next_delay sleep_ctx
        attempts zero attempt last ctx w = none
        attempts (suc fuel) attempt last ctx w =
            if leb attempt cfg.max_attempts
            then after_context (λ v x. attempts fuel (attempt + 1) (some x) ctx v) ctx attempt
                (ck.ctx_err ctx w)
            else give_up last w

        -- The body that `Generate` and `Stream` share but for the call.
        unfoldable pub retry : Ctx → W → Option (Answer × W)
        unfolding attempts
        retry ctx w = attempts (cfg.max_attempts + 1) 1 none ctx w

-- A call, `Generate` or `Stream`, of the provider that `Retry` makes of a configuration.
unfoldable pub retried :
    {F W X Ctx A : Type 0}
    → Floats F W
    → ErrorKinds X
    → Clock Ctx W X
    → (Ctx → W → (Option A × Option X) × W)
    → RetryConfig F W X
    → Ctx
    → W
    → Option ((Option A × Option (RetryErr X)) × W)
unfolding with_defaults retry
retried fl ek ck call cfg ctx w = retry fl ek (with_defaults fl cfg) ck call ctx w
