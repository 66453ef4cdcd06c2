-- ===== src/Provider/Retry/Delay.antt =====
-- The bounds of the delays of pkg/provider/retry.go.
use galdor.Prelude.{
  true, ◌⊎◌, ℕ, zero, suc, ◌-◌, ◌*◌, ◌≤◌, ◌<◌, min, ℤ, pos, negsuc, false, ◌||◌, not, Bool-cases,
  Option, none, some, ◌≡◌, inl, inr, ap, ltb, ltb→lt, ltb-false→le, arith, is_positive,
}
use galdor.Provider.Retry.{
  Floats, ErrorKinds, Policy, second, max_retry_after_seconds, one, capped, apply_jitter_up,
  apply_jitter, climb, within, within_or_max, server_delay, schedule, delay_after, next_delay,
}

-- What a hint of the server asks for, in nanoseconds.
abbrev pub wanted : Option ℤ → ℕ
wanted (some (pos n)) = min n max_retry_after_seconds * second
wanted (some (negsuc n)) = 0
wanted none = 0

-- A wait of at least `least` and at most `most`, or none since that cannot be.
abbrev pub IsWait : ℕ → ℕ → Option ℤ → Type 0
IsWait least most none = most < least
IsWait least most (some (pos d)) = (least ≤ d) × (d ≤ most)
IsWait least most (some (negsuc d)) = ⊥

-- How float64 rounds: its operations keep the order, `rand.Float64` is not below 0 or above 1, and
-- whole numbers up to two days in nanoseconds, below 2^53, convert exactly.
pub record Rounds {F W : Type 0} (fl : Floats F W) : Type 0 where
  pub ones : fl.at_most (fl.of_int (pos 0)) (one fl) ≡ true
  pub one_one : fl.at_most (one fl) (one fl) ≡ true
  pub ordered :
      (a : F)
      → fl.at_most (fl.of_int (pos 0)) a ≡ true
      → fl.less (one fl) a ≡ false
      → fl.at_most a (one fl) ≡ true
  pub random_unit :
      (w : W)
      → (fl.at_most (fl.of_int (pos 0)) (fl.random w).0 ≡ true)
        × (fl.at_most (fl.random w).0 (one fl) ≡ true)
  pub times_unit :
      (a b : F)
      → fl.at_most (fl.of_int (pos 0)) a ≡ true
      → fl.at_most a (one fl) ≡ true
      → fl.at_most (fl.of_int (pos 0)) b ≡ true
      → fl.at_most b (one fl) ≡ true
      → (fl.at_most (fl.of_int (pos 0)) (fl.times a b) ≡ true)
        × (fl.at_most (fl.times a b) (one fl) ≡ true)
  pub plus_one :
      (a : F)
      → fl.at_most (fl.of_int (pos 0)) a ≡ true
      → fl.at_most a (one fl) ≡ true
      → (fl.at_most (one fl) (fl.plus (one fl) a) ≡ true)
        × (fl.at_most (fl.plus (one fl) a) (fl.of_int (pos 2)) ≡ true)
  pub times_whole :
      (d : ℕ) (b : F)
      → d ≤ max_retry_after_seconds * second
      → fl.at_most (one fl) b ≡ true
      → fl.at_most b (fl.of_int (pos 2)) ≡ true
      → (fl.at_most (fl.of_int (pos d)) (fl.times (fl.of_int (pos d)) b) ≡ true)
        × (fl.at_most (fl.times (fl.of_int (pos d)) b) (fl.of_int (pos (2 * d))) ≡ true)
  pub to_int_between :
      (low high : ℕ) (a : F)
      → high ≤ 2 * (max_retry_after_seconds * second)
      → fl.at_most (fl.of_int (pos low)) a ≡ true
      → fl.at_most a (fl.of_int (pos high)) ≡ true
      → (k : ℕ) × (fl.to_int a ≡ pos k) × (low ≤ k)

-- Not NaN: at most 0 or at least 0.
abbrev pub IsNumber : {F W : Type 0} → Floats F W → F → Type 0
IsNumber fl j =
    (fl.at_most j (fl.of_int (pos 0)) ≡ true) ⊎ (fl.at_most (fl.of_int (pos 0)) j ≡ true)

-- `d * (1 + r * j)`, for `r` of `rand.Float64` and a jitter above 0, is not below `d`.
scales_up :
    {F W : Type 0} (fl : Floats F W) (d : ℕ) (j : F) (w : W)
    → Rounds fl
    → d ≤ max_retry_after_seconds * second
    → fl.at_most (fl.of_int (pos 0)) j ≡ true
    → (k : ℕ) × (fl.to_int
          (fl.times (fl.of_int (pos d)) (fl.plus (one fl) (fl.times (fl.random w).0 (capped fl j))))
        ≡ pos k)
      × (d ≤ k)
scales_up fl d j w laws small low =
    let (r0, r1) = laws.random_unit w in
    let (c0, c1) = capped_unit in
    let (t0, t1) = laws.times_unit (fl.random w).0 (capped fl j) r0 r1 c0 c1 in
    let (p0, p1) = laws.plus_one (fl.times (fl.random w).0 (capped fl j)) t0 t1 in
    let (s0, s1) =
      laws.times_whole d (fl.plus (one fl) (fl.times (fl.random w).0 (capped fl j))) small p0 p1 in
    laws.to_int_between d (2 * d) _ (omega arith) s0 s1
  where
    capped_unit :
        (fl.at_most (fl.of_int (pos 0)) (capped fl j) ≡ true)
        × (fl.at_most (capped fl j) (one fl) ≡ true)
    capped_unit = elim (Bool-cases (fl.less (one fl) j)) [
      | inl e ↦ rw e (laws.ones, laws.one_one)
      | inr e ↦ rw e (low, laws.ordered j low e)
    ]

module _ {F W X : Type 0} (fl : Floats F W) (ek : ErrorKinds X) (cfg : Policy F W X) where
  within_or_max-IsWait : (x : ℤ × W) → IsWait 0 cfg.max_delay (within_or_max fl ek cfg x).0
  within_or_max-IsWait (pos d, w) = elim (Bool-cases (ltb cfg.max_delay d)) [
    | inl e ↦ rw e (omega arith, omega arith)
    | inr e ↦ rw e (omega arith, ltb-false→le cfg.max_delay d e)
  ]
  within_or_max-IsWait (negsuc d, w) = (omega arith, omega arith)

  within-IsWait :
      (least k : ℕ) (w : W)
      → least ≤ k
      → least ≤ cfg.max_delay
      → IsWait least cfg.max_delay (within fl ek cfg (pos k, w)).0
  within-IsWait least k w l m = elim (Bool-cases (ltb cfg.max_delay k)) [
    | inl e ↦ rw e (m, omega arith)
    | inr e ↦ rw e (l, ltb-false→le cfg.max_delay k e)
  ]

  apply_jitter_up-grows :
      (d : ℕ) (j : F) (w : W)
      → Rounds fl
      → IsNumber fl j
      → d ≤ max_retry_after_seconds * second
      → (k : ℕ) × (v : W) × (apply_jitter_up fl (pos d) j w ≡ (pos k, v)) × (d ≤ k)
  unfolding apply_jitter_up
  apply_jitter_up-grows d j w laws number small =
      elim (Bool-cases (fl.at_most j (fl.of_int (pos 0)) || not (is_positive (pos d)))) [
        | inl e ↦ (d, w, rw (e, apply_jitter_up), omega arith)
        | inr e ↦
            let above : fl.at_most (fl.of_int (pos 0)) j ≡ true = elim number [
              | inl low ↦ cc (rw low at e)
              | inr high ↦ high
            ] in
            let (k, q, l) = scales_up fl d j w laws small above in
            (k, (fl.random w).1, rw (e, apply_jitter_up) (ap (λ z. (z, (fl.random w).1)) q), l)
      ]

  server_delay-IsWait :
      (secs : ℕ) (w : W)
      → Rounds fl
      → IsNumber fl cfg.jitter
      → IsWait
          (min secs max_retry_after_seconds * second)
          cfg.max_delay
          (server_delay fl ek cfg secs w).0
  server_delay-IsWait secs w laws number =
      let d = min secs max_retry_after_seconds * second in
      elim (Bool-cases (ltb cfg.max_delay d)) [
        | inl e ↦ rw e (ltb→lt cfg.max_delay d e)
        | inr e ↦
            let (k, v, q, l) = apply_jitter_up-grows d cfg.jitter w laws number (omega arith) in
            rw (e, q) (within-IsWait d k v l (ltb-false→le cfg.max_delay d e))
      ]

  schedule-IsWait : (attempt : ℕ) (w : W) → IsWait 0 cfg.max_delay (schedule fl ek cfg attempt w).0
  schedule-IsWait attempt w =
      let f =
        climb fl (attempt - 1) cfg.multiplier (fl.of_int (pos cfg.max_delay))
          (fl.of_int (pos cfg.initial_delay)) in
      within_or_max-IsWait (apply_jitter fl (fl.to_int f) cfg.jitter w)

  delay_after-IsWait :
      (attempt : ℕ) (w : W) (hint : Option ℤ)
      → Rounds fl
      → IsNumber fl cfg.jitter
      → IsWait (wanted hint) cfg.max_delay (delay_after fl ek cfg hint attempt w).0
  delay_after-IsWait attempt w (some (pos (suc n))) laws number =
      server_delay-IsWait (suc n) w laws number
  delay_after-IsWait attempt w (some (pos zero)) laws number = schedule-IsWait attempt w
  delay_after-IsWait attempt w (some (negsuc n)) laws number = schedule-IsWait attempt w
  delay_after-IsWait attempt w none laws number = schedule-IsWait attempt w

  -- If floats round as float64 does and the jitter is not NaN, then a delay is at most the largest one configured,
  -- and not below what the server asks for, up to a day; there is none only if the server asks for more
  -- than the largest one.
  pub next_delay-IsWait :
      (attempt : ℕ) (x : X) (w : W)
      → Rounds fl
      → IsNumber fl cfg.jitter
      → IsWait (wanted (ek.retry_after x)) cfg.max_delay (next_delay fl ek cfg attempt x w).0
  unfolding next_delay
  next_delay-IsWait attempt x w laws number =
      delay_after-IsWait attempt w (ek.retry_after x) laws number
