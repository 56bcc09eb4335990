-- ===== src/CircuitBreaker/Machine.antt =====
-- The states of `CircuitBreaker` (src/traffik/_utils.py): what holds in each, and how the records of
-- failures and successes lead from one to another.
use traffik.Base.{
  ℕ, ◌+◌, ◌<◌, ◌≡◌, refl, sym, subst, true, false, none, some, List, [], ◌∷◌, ◌++◌, ltb, leb,
  Bool-cases, inl, inr, arith,
}
use traffik.Result.{Returns}
use traffik.CircuitBreaker.{
  CircuitState, is_closed, is_open, is_half_open, CircuitBreaker, initial, new, to_open,
  to_half_open, allow_execution, allow_in, success_in, failure_in, record_success, record_failure,
  Call, allow, success, failure, force_open, force_close, step, run,
}

-- What the breaker keeps in each state.
abbrev pub Fits : CircuitState → CircuitBreaker → Type 0
Fits is_closed b =
    (b.failure_count < b.failure_threshold)
    × (b.success_count ≡ 0)
    × (b.opened_at ≡ none)
    × (b.probe_in_progress ≡ false)
Fits is_open b =
    (b.failure_count ≡ 0)
    × (b.success_count ≡ 0)
    × ((t : ℕ) × (b.opened_at ≡ some t))
    × (b.probe_in_progress ≡ false)
Fits is_half_open b =
    (b.failure_count ≡ 0)
    × (b.success_count < b.success_threshold)
    × ((t : ℕ) × (b.opened_at ≡ some t))

pub record IsValid (b : CircuitBreaker) : Type 0 where
  pub failures : 0 < b.failure_threshold
  pub successes : 0 < b.success_threshold
  pub fits : Fits b.state b

-- A constructed breaker is well formed, and one is constructed whenever all three arguments are positive.
pub new-IsValid :
    (failures timeout successes : ℕ)
    → 0 < failures
    → 0 < timeout
    → 0 < successes
    → Returns (new failures timeout successes) IsValid
unfolding new
new-IsValid failures timeout successes f t s = (
  initial failures timeout successes,
  ground arith,
  record { failures = f; successes = s; fits = (f, refl, refl, refl) },
)

allow_in-IsValid :
    (now : ℕ) (b : CircuitBreaker) (s : CircuitState)
    → b.state ≡ s
    → Fits s b
    → IsValid b
    → Returns (allow_in now s b) (λ r. IsValid r.1)
unfolding allow_in
allow_in-IsValid now b is_closed e h v = ((true, b), refl, v)
allow_in-IsValid now b is_open e (f, s, (t, o), p) v =
    elim (Bool-cases (ltb now (t + b.recovery_timeout))) [
      | inl h ↦ ((false, b), rw (o, h) refl, v)
      | inr h ↦ (
        (true, to_half_open b),
        rw (o, h) refl,
        record { failures = v.failures; successes = v.successes; fits = (f, v.successes, (t, o)) },
      )
    ]
allow_in-IsValid now b is_half_open e (f, s, (t, o)) v = elim (Bool-cases b.probe_in_progress) [
  | inl h ↦ ((false, b), rw (h) refl, v)
  | inr h ↦ (
    (true, record b { probe_in_progress = true }),
    rw (h) refl,
    record {
      failures = v.failures;
      successes = v.successes;
      fits = subst (λ s. Fits s (record b { probe_in_progress = true })) (sym e) (f, s, (t, o));
    },
  )
]

success_in-IsValid :
    (b : CircuitBreaker) (s : CircuitState)
    → b.state ≡ s
    → Fits s b
    → IsValid b
    → IsValid (success_in s b)
unfolding success_in
success_in-IsValid b is_closed e (f, s, o, p) v = record {
  failures = v.failures;
  successes = v.successes;
  fits = subst (λ s. Fits s (record b { failure_count = 0 })) (sym e) (v.failures, s, o, p);
}
success_in-IsValid b is_open e h v = v
success_in-IsValid b is_half_open e (f, s, o) v =
    elim (Bool-cases (leb b.success_threshold (b.success_count + 1))) [
      | inl h ↦ rw (h) (record {
        failures = v.failures;
        successes = v.successes;
        fits = (v.failures, refl, refl, refl);
      })
      | inr h ↦ rw (h) (record {
        failures = v.failures;
        successes = v.successes;
        fits =
            subst
              (λ s.
                Fits s
                  (record b { probe_in_progress = false; success_count = b.success_count + 1 }))
              (sym e) (f, ground (arith, h), o);
      })
    ]

to_open-IsValid : (now : ℕ) (b : CircuitBreaker) → IsValid b → IsValid (to_open now b)
to_open-IsValid now b v = record {
  failures = v.failures;
  successes = v.successes;
  fits = (refl, refl, (now, refl), refl);
}

failure_in-IsValid :
    (now : ℕ) (b : CircuitBreaker) (s : CircuitState)
    → b.state ≡ s
    → Fits s b
    → IsValid b
    → IsValid (failure_in now s b)
unfolding failure_in
failure_in-IsValid now b is_closed e (f, s, o, p) v =
    elim (Bool-cases (leb b.failure_threshold (b.failure_count + 1))) [
      | inl h ↦ rw (h) (to_open-IsValid now b v)
      | inr h ↦ rw (h) (record {
        failures = v.failures;
        successes = v.successes;
        fits =
            subst (λ s. Fits s (record b { failure_count = b.failure_count + 1 })) (sym e)
              (ground (arith, h), s, o, p);
      })
    ]
failure_in-IsValid now b is_open e h v = v
failure_in-IsValid now b is_half_open e h v = to_open-IsValid now b v

step-IsValid : (c : Call) (b : CircuitBreaker) → IsValid b → Returns (step c b) (λ r. IsValid r.1)
unfolding step allow_execution record_success record_failure
step-IsValid (allow now) b v =
    let (r, e, v') = allow_in-IsValid now b b.state refl v.fits v in
    ((r.0 ∷ [], r.1), rw (e) refl, v')
step-IsValid success b v = (_, refl, success_in-IsValid b b.state refl v.fits v)
step-IsValid (failure now) b v = (_, refl, failure_in-IsValid now b b.state refl v.fits v)
step-IsValid (force_open now) b v = (_, refl, to_open-IsValid now b v)
step-IsValid force_close b v = (
  _,
  refl,
  record { failures = v.failures; successes = v.successes; fits = (v.failures, refl, refl, refl) },
)

-- Any calls in any order return, the assertion of `allow_execution` included, and keep the breaker
-- well formed: an open or half-open one knows when it opened, the counts stay below their
-- thresholds, and no probe is in progress unless it is half-open.
pub run-IsValid :
    (calls : List Call) (b : CircuitBreaker) → IsValid b → Returns (run calls b) (λ r. IsValid r.1)
unfolding run
run-IsValid [] b v = (_, refl, v)
run-IsValid (c ∷ calls) b v =
    let (r, e, v') = step-IsValid c b v in
    let (r', e', v'') = run-IsValid calls r.1 v' in ((r.0 ++ r'.0, r'.1), rw (e, e') refl, v'')
