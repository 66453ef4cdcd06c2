-- ===== src/Provider/Retry/Calls.antt =====
-- What a call through the retrying provider of pkg/provider/retry.go returns, and how often it calls
-- the inner one.
use galdor.Prelude.{
  subst, ◌-◌, ℕ, zero, suc, ◌+◌, ◌≤◌, ◌<◌, ℤ, true, false, not, Bool-cases, Option, none, some, ◌≡◌,
  ◌⊎◌, inl, inr, refl, sym, ◌∙◌, leb, leb-false→lt, arith, is_positive, ◌||◌, ◌*◌, pos, negsuc, min,
  ltb,
}
use galdor.Graph.Run.{positive_or}
use galdor.Provider.Retry.{
  Floats, ErrorKinds, apply_jitter, apply_jitter_up, delay_after, max_retry_after_seconds, second,
  Policy, Clock, RetryErr, context_ended, not_retried, exhausted, is_retryable, next_delay,
  sleep_ctx, notify, Answer, after_sleep, after_delay, after_call, after_context, attempts, retry,
  retried, RetryConfig, with_defaults,
}

module _ {F W X Ctx A : Type 0} (fl : Floats F W) (ek : ErrorKinds X) (cfg : Policy F W X)
    (ck : Clock Ctx W X) (call : Ctx → W → (Option A × Option X) × W) (ctx : Ctx) where
  -- An error with which the server asks for a longer wait than the largest delay.
  abbrev pub AsksTooLong : X → Type 0
  AsksTooLong x =
      (n : ℕ) × (ek.retry_after x ≡ some (pos (suc n)))
      × (cfg.max_delay < min (suc n) max_retry_after_seconds * second)

  -- Where the answer comes from after `made` calls, with `w` the world at the end: a success or an error
  -- that is not transient is that of the last call, an end of the context that of its check or of a
  -- wait, and the error of the exhausted attempts holds the transient error of the last call, with
  -- all attempts made or with a server that asks for too long a wait.
  abbrev pub IsOutcome : ℕ → W → Option A × Option (RetryErr X) → Type 0
  IsOutcome made w (resp, none) =
      (1 ≤ made) × (made ≤ cfg.max_attempts) × (v : W) × (call ctx v ≡ ((resp, none), w))
  IsOutcome made w (resp, some (not_retried x)) =
      (1 ≤ made)
      × (made ≤ cfg.max_attempts)
      × (is_retryable ek x ≡ false)
      × (v : W) × (call ctx v ≡ ((resp, some x), w))
  IsOutcome made w (resp, some (context_ended x)) =
      (made ≤ cfg.max_attempts)
      × (resp ≡ none)
      × (((v : W) × (ck.ctx_err ctx v ≡ (some x, w)))
          ⊎ ((v : W) × (d : ℤ) × (ck.wait ctx d v ≡ (some x, w))))
  IsOutcome made w (resp, some (exhausted n none)) = ⊥
  IsOutcome made w (resp, some (exhausted n (some x))) =
      (resp ≡ none)
      × (n ≡ cfg.max_attempts)
      × (is_retryable ek x ≡ true)
      × ((v : W) × (r : Option A) × (call ctx v ≡ ((r, some x), w)))
      × ((made ≡ cfg.max_attempts) ⊎ ((1 ≤ made) × (made < cfg.max_attempts) × AsksTooLong x))

  -- `count` counts the calls of the inner provider: a call adds one, and nothing else changes it.
  pub record Counts (count : W → ℕ) : Type 0 where
    pub calls : (w : W) → count (call ctx w).1 ≡ suc (count w)
    pub contexts : (w : W) → count (ck.ctx_err ctx w).1 ≡ count w
    pub waits : (d : ℤ) (w : W) → count (ck.wait ctx d w).1 ≡ count w
    pub randoms : (w : W) → count (fl.random w).1 ≡ count w
    pub notices :
        (attempt : ℕ) (d : ℤ) (x : X) (w : W) → count (notify fl ek cfg ck attempt d x w) ≡ count w

  -- Without a delay, the server asks for too long a wait, and no random number was drawn.
  delay_after-none :
      (hint : Option ℤ) (attempt : ℕ) (w v : W)
      → delay_after fl ek cfg hint attempt w ≡ (none, v)
      → (v ≡ w)
        × (n : ℕ) × (hint ≡ some (pos (suc n)))
        × (cfg.max_delay < min (suc n) max_retry_after_seconds * second)
  delay_after-none (some (pos (suc n))) attempt w v h =
      let d = min (suc n) max_retry_after_seconds * second in
      elim (Bool-cases (ltb cfg.max_delay d)) [
        | inl e ↦ (cc (rw e at h), n, refl, ground arith)
        | inr e ↦ cc (rw e at h)
      ]
  delay_after-none (some (pos zero)) attempt w v h = cc h
  delay_after-none (some (negsuc n)) attempt w v h = cc h
  delay_after-none none attempt w v h = cc h

  module _ (count : W → ℕ) (counts : Counts count) where
    -- A loop's result, where `start` calls had been made before the first attempt.
    abbrev Ends : ℕ → Option (Answer fl ek cfg ck call × W) → Type 0
    Ends start o =
        (a : Option A × Option (RetryErr X)) × (w : W) × (made : ℕ) × (o ≡ some (a, w))
        × (count w ≡ start + made)
        × IsOutcome made w a

    jitter-counts :
        (d : ℤ) (j : F) (w : W)
        → (count (apply_jitter fl d j w).1 ≡ count w)
          × (count (apply_jitter_up fl d j w).1 ≡ count w)
    unfolding apply_jitter apply_jitter_up
    jitter-counts d j w =
        elim (Bool-cases (fl.at_most j (fl.of_int (pos 0)) || not (is_positive d))) [
          | inl e ↦ (rw (e, apply_jitter) refl, rw (e, apply_jitter_up) refl)
          | inr e ↦
              (rw (e, apply_jitter) (counts.randoms w), rw (e, apply_jitter_up) (counts.randoms w))
        ]

    delay_after-counts :
        (hint : Option ℤ) (attempt : ℕ) (w : W)
        → count (delay_after fl ek cfg hint attempt w).1 ≡ count w
    delay_after-counts (some (pos (suc n))) attempt w =
        let d = min (suc n) max_retry_after_seconds * second in
        elim (Bool-cases (ltb cfg.max_delay d)) [
          | inl e ↦ rw e refl
          | inr e ↦ rw e (jitter-counts (pos d) cfg.jitter w).1
        ]
    delay_after-counts (some (pos zero)) attempt w = (jitter-counts _ cfg.jitter w).0
    delay_after-counts (some (negsuc n)) attempt w = (jitter-counts _ cfg.jitter w).0
    delay_after-counts none attempt w = (jitter-counts _ cfg.jitter w).0

    next_delay-counts :
        (attempt : ℕ) (x : X) (w : W) → count (next_delay fl ek cfg attempt x w).1 ≡ count w
    unfolding next_delay
    next_delay-counts attempt x w = delay_after-counts (ek.retry_after x) attempt w

    sleep_ctx-Ends :
        (d : ℤ) (w v : W) (e : X)
        → sleep_ctx fl ek cfg ck ctx d w ≡ (some e, v)
        → ck.wait ctx d w ≡ (some e, v)
    unfolding sleep_ctx
    sleep_ctx-Ends d w v e h = elim (Bool-cases (is_positive d)) [
      | inr p ↦ cc (rw (p, sleep_ctx) at h)
      | inl p ↦ rw (p, sleep_ctx) at h
    ]

    sleep_ctx-counts : (d : ℤ) (w : W) → count (sleep_ctx fl ek cfg ck ctx d w).1 ≡ count w
    unfolding sleep_ctx
    sleep_ctx-counts d w = elim (Bool-cases (is_positive d)) [
      | inr p ↦ rw (p, sleep_ctx) refl
      | inl p ↦ rw (p, sleep_ctx) (counts.waits d w)
    ]

    -- A wait, and then the next attempts.
    waited :
        (next : W → Option (Answer fl ek cfg ck call × W)) (d : ℤ) (w : W) (start made : ℕ)
        → count w ≡ start + made
        → made ≤ cfg.max_attempts
        → ((v : W) → count v ≡ count w → Ends start (next v))
        → Ends start (after_sleep fl ek cfg ck call next (sleep_ctx fl ek cfg ck ctx d w))
    waited next d w start made counted few rest =
        slept (sleep_ctx fl ek cfg ck ctx d w) refl (sleep_ctx-counts d w)
      where
        slept :
            (x : Option X × W)
            → sleep_ctx fl ek cfg ck ctx d w ≡ x
            → count x.1 ≡ count w
            → Ends start (after_sleep fl ek cfg ck call next x)
        slept (some e, v) q l = (
          (none, some (context_ended e)),
          v,
          made,
          refl,
          l ∙ counted,
          (few, refl, inr (w, d, sleep_ctx-Ends d w v e q)),
        )
        slept (none, v) q l = rest v l

    failed_call :
        (next : W → X → Option (Answer fl ek cfg ck call × W)) (attempt : ℕ) (resp : Option A)
        (x : X) (u w : W) (start : ℕ)
        → call ctx u ≡ ((resp, some x), w)
        → count w ≡ start + attempt
        → 1 ≤ attempt
        → attempt ≤ cfg.max_attempts
        → (attempt < cfg.max_attempts → (v : W) → count v ≡ count w → Ends start (next v x))
        → Ends start (after_call fl ek cfg ck call next ctx attempt ((resp, some x), w))
    unfolding next_delay
    failed_call next attempt resp x u w start q counted low few rest =
        elim (Bool-cases (is_retryable ek x)) [
          | inr k ↦
              rw k ((resp, some (not_retried x)), w, attempt, refl, counted, (low, few, k, u, q))
          | inl k ↦ elim (Bool-cases (leb cfg.max_attempts attempt)) [
            | inl full ↦
                let all : attempt ≡ cfg.max_attempts = ground arith in
                rw (k, full) (_, w, attempt, refl, counted, (refl, refl, k, (u, resp, q), inl all))
            | inr less ↦
                rw (k, less)
                  (delayed k (leb-false→lt cfg.max_attempts attempt less)
                    (delay_after fl ek cfg (ek.retry_after x) attempt w) refl
                    (delay_after-counts (ek.retry_after x) attempt w))
          ]
        ]
      where
        delayed :
            is_retryable ek x ≡ true
            → attempt < cfg.max_attempts
            → (y : Option ℤ × W) → delay_after fl ek cfg (ek.retry_after x) attempt w ≡ y
            → count y.1 ≡ count w
            → Ends start (after_delay fl ek cfg ck call (λ v. next v x) ctx attempt x y)
        delayed k less (none, v) same l =
            let (still, n, hint, long) = delay_after-none (ek.retry_after x) attempt w v same in
            (
              _,
              v,
              attempt,
              refl,
              l ∙ counted,
              (
                refl,
                refl,
                k,
                (u, resp, subst (λ z. call ctx u ≡ ((resp, some x), z)) (sym still) q),
                inr (low, less, (n, hint, long)),
              ),
            )
        delayed k less (some d, v) same l =
            let told = counts.notices (attempt + 1) d x v in
            let after = notify fl ek cfg ck (attempt + 1) d x v in
            waited (λ v. next v x) d after start attempt (told ∙ l ∙ counted) few
              (λ v' l'. rest less v' (l' ∙ told ∙ l))

    -- One attempt, and then the next ones.
    round-Ends :
        (next : W → X → Option (Answer fl ek cfg ck call × W)) (attempt start : ℕ) (w : W)
        → suc (count w) ≡ start + attempt
        → 1 ≤ attempt
        → attempt ≤ cfg.max_attempts
        → (attempt < cfg.max_attempts
            → (x : X) (v : W) → count v ≡ start + attempt
            → Ends start (next v x))
        → Ends start (after_context fl ek cfg ck call next ctx attempt (ck.ctx_err ctx w))
    round-Ends next attempt start w counted low few rest =
        begun (ck.ctx_err ctx w) refl (counts.contexts w)
      where
        answered :
            (u : W) (y : (Option A × Option X) × W)
            → call ctx u ≡ y
            → count y.1 ≡ start + attempt
            → Ends start (after_call fl ek cfg ck call next ctx attempt y)
        answered u ((resp, none), v) q l = ((resp, none), v, attempt, refl, l, (low, few, u, q))
        answered u ((resp, some x), v) q l =
            failed_call next attempt resp x u v start q l low few
              (λ less v' l'. rest less x v' (l' ∙ l))

        begun :
            (y : Option X × W)
            → ck.ctx_err ctx w ≡ y
            → count y.1 ≡ count w
            → Ends start (after_context fl ek cfg ck call next ctx attempt y)
        begun (some e, v) q l =
            let made : count v ≡ start + (attempt - 1) = omega arith in
            let within : attempt - 1 ≤ cfg.max_attempts = omega arith in
            (_, v, attempt - 1, refl, made, (within, refl, inl (w, q)))
        begun (none, v) q l = answered v (call ctx v) refl (omega (arith, counts.calls v))

    attempts-Ends :
        (fuel attempt start : ℕ) (last : Option X) (w : W)
        → 1 ≤ attempt
        → attempt ≤ cfg.max_attempts
        → cfg.max_attempts + 2 ≤ fuel + attempt
        → suc (count w) ≡ start + attempt
        → Ends start (attempts fl ek cfg ck call fuel attempt last ctx w)
    unfolding attempts next_delay
    attempts-Ends zero attempt start last w low a fuel counted = absurd (omega arith)
    attempts-Ends (suc fuel) attempt start last w low a enough counted =
        elim (Bool-cases (leb attempt cfg.max_attempts)) [
          | inr e ↦ absurd (omega (arith, leb-false→lt attempt cfg.max_attempts e))
          | inl e ↦
              rw (e, attempts)
                (round-Ends (λ v x. attempts fl ek cfg ck call fuel (attempt + 1) (some x) ctx v)
                  attempt start w counted low a
                  (λ less x v l.
                    attempts-Ends fuel (attempt + 1) start (some x) v (omega arith) (omega arith)
                      (omega arith) (omega arith)))
        ]

    pub retry-IsOutcome :
        (w : W)
        → 1 ≤ cfg.max_attempts
        → (a : Option A × Option (RetryErr X)) × (w' : W) × (made : ℕ) × (retry fl ek cfg ck call
              ctx w
            ≡ some (a, w'))
          × (count w' ≡ count w + made)
          × IsOutcome made w' a
    unfolding retry
    retry-IsOutcome w some_attempt =
        attempts-Ends (cfg.max_attempts + 1) 1 (count w) none w (omega arith) some_attempt
          (omega arith) (omega arith)

module _ {F W X Ctx A : Type 0} (fl : Floats F W) (ek : ErrorKinds X) (cfg : RetryConfig F W X)
    (ck : Clock Ctx W X) (call : Ctx → W → (Option A × Option X) × W) where
  -- Where only calls of the inner provider, by one each, add to `count`, a call through the retrying
  -- provider returns, with `made` calls of the inner one, at most the configured attempts. What it
  -- returns is the answer of the last call or its error that is not retryable, an error of the
  -- context, or the retryable error of the last call; this last one only when all attempts were made,
  -- or when the server asked for a longer wait than the largest delay.
  pub retried-IsOutcome :
      (count : W → ℕ) (ctx : Ctx) (w : W)
      → Counts fl ek (with_defaults fl cfg) ck call ctx count
      → (a : Option A × Option (RetryErr X)) × (w' : W) × (made : ℕ) × (retried fl ek ck call cfg
            ctx w
          ≡ some (a, w'))
        × (count w' ≡ count w + made)
        × IsOutcome fl ek (with_defaults fl cfg) ck call ctx made w' a
  unfolding retried with_defaults
  retried-IsOutcome count ctx w counts =
      retry-IsOutcome fl ek (with_defaults fl cfg) ck call ctx count counts w
        (positive_or-positive cfg.max_attempts)
    where
      positive_or-positive : (z : ℤ) → 1 ≤ positive_or z 3
      positive_or-positive (pos zero) = omega arith
      positive_or-positive (pos (suc n)) = omega arith
      positive_or-positive (negsuc n) = omega arith
