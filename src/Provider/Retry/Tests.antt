-- ===== src/Provider/Retry/Tests.antt =====
-- A provider of pkg/provider/retry.go over whole numbers in place of floats, and a world that counts
-- the calls: the first two fail.
use galdor.Prelude.{
  inr, ℕ, zero, suc, ◌+◌, ◌-◌, ◌*◌, ◌≤◌, ℤ, pos, negsuc, true, false, Option, none, some, ◌≡◌, refl,
  ltb, leb, eqb, arith, if◌then◌else◌,
}
use galdor.Provider.Retry.{
  Floats, Clock, ErrorKinds, RetryConfig, Policy, RetryErr, second, with_defaults, retried,
  next_delay,
}
use galdor.Provider.Retry.Delay.{Rounds, IsWait, wanted, next_delay-IsWait}
use galdor.Provider.Retry.Calls.{Counts, IsOutcome, retried-IsOutcome}

abbrev times : ℕ → ℕ → ℕ
times zero m = 0
times (suc n) m = suc n * m

abbrev to_ℕ : ℤ → ℕ
to_ℕ (pos n) = n
to_ℕ (negsuc n) = 0

abbrev whole : Floats ℕ ℕ
whole = record {
  of_int = to_ℕ;
  to_int = pos;
  quarter = 1;
  is_zero = λ n. eqb n 0;
  less = ltb;
  at_most = leb;
  plus = λ a b. a + b;
  minus = λ a b. a - b;
  times = times;
  random = λ w. (0, w);
}

abbrev clock : Clock Unit ℕ ℕ
clock = record { ctx_err = λ ctx w. (none, w); wait = λ ctx d w. (none, w) }

-- Every error says how many seconds to wait.
abbrev kinds : ErrorKinds ℕ
kinds = record {
  is_rate_limited = λ x. true;
  is_server = λ x. false;
  retry_after = λ x. some (pos x);
}

abbrev config : RetryConfig ℕ ℕ ℕ
config = record {
  max_attempts = pos 0;
  initial_delay = pos 0;
  max_delay = pos 0;
  multiplier = 0;
  jitter = 0;
  on_retry = none;
}

abbrev policy : Policy ℕ ℕ ℕ
policy = record {
  max_attempts = 3;
  initial_delay = second;
  max_delay = 30 * second;
  multiplier = 2;
  jitter = 1;
  on_retry = none;
}

abbrev call : Unit {0} → ℕ → (Option ℕ × Option ℕ) × ℕ
call ctx w = ((if ltb w 2 then none else some w, if ltb w 2 then some 4 else none), suc w)

times-mul : (a b : ℕ) → times a b ≡ a * b
times-mul zero b = omega arith
times-mul (suc a) b = refl

whole-Rounds : Rounds whole
whole-Rounds = record {
  ones = refl;
  one_one = refl;
  ordered = λ a low less. ground arith;
  random_unit = λ w. (refl, refl);
  times_unit = λ a b a0 a1 b0 b1.
      let small : a ≤ 1 = ground arith in
      let short : b ≤ 1 = ground arith in
      let product : a * b ≤ 1 = grind arith in rw (times-mul a b) (ground arith, ground arith);
  plus_one = λ a low high. (ground arith, ground arith);
  times_whole = λ d b small low high.
      let least : 1 ≤ b = ground arith in
      let most : b ≤ 2 = ground arith in
      let below : d ≤ d * b = grind arith in
      let above : d * b ≤ 2 * d = grind arith in rw (times-mul d b) (ground arith, ground arith);
  to_int_between = λ low high a small at_least up_to. (a, refl, ground arith);
}

next_delay-IsWait_example :
    IsWait (wanted (some (pos 4))) (30 * second) (next_delay whole kinds policy 1 4 0).0
next_delay-IsWait_example = next_delay-IsWait whole kinds policy 1 4 0 whole-Rounds (inr refl)

counts : Counts whole kinds (with_defaults whole config) clock call tt (λ w. w)
unfolding with_defaults
counts = record {
  calls = λ w. refl;
  contexts = λ w. refl;
  waits = λ d w. refl;
  randoms = λ w. refl;
  notices = λ attempt d x w. refl;
}

retried-IsOutcome_example :
    (a : Option ℕ × Option (RetryErr ℕ)) × (w' : ℕ) × (made : ℕ) × (retried whole kinds clock call
        config tt 0
      ≡ some (a, w'))
    × (w' ≡ 0 + made)
    × IsOutcome whole kinds (with_defaults whole config) clock call tt made w' a
retried-IsOutcome_example = retried-IsOutcome whole kinds config clock call (λ w. w) tt 0 counts
