-- ===== src/CircuitBreaker/Probes.antt =====
-- The probes of `CircuitBreaker` (src/traffik/_utils.py): one at a time, and enough of them close it.
use native.Mathlib.Nat.{zero-add}
use traffik.Base.{
  ℕ, zero, suc, ◌+◌, ◌≤◌, ◌<◌, ◌≡◌, ◌≢◌, refl, subst, ◌∙◌, ap, Bool, true, false, some, List, [],
  ◌∷◌, map, length, replicate, ltb, leb, if◌then◌else◌, Bool-cases, inl, inr, arith,
}
use traffik.Result.{ok, Returns}
use traffik.CircuitBreaker.{
  CircuitState, is_closed, is_open, is_half_open, CircuitBreaker, to_closed, to_half_open,
  allow_execution, allow_in, success_in, record_success, Call, allow, success, step, run,
}
use traffik.CircuitBreaker.Machine.{Fits, IsValid}
use traffik.CircuitBreaker.Recovery.{allow_in-open, success_in-closed}

-- How many executions were allowed.
unfoldable pub passed : List Bool → ℕ
passed [] = 0
passed (true ∷ answers) = 1 + passed answers
passed (false ∷ answers) = passed answers

passed-replicate : (n : ℕ) → passed (replicate n false) ≡ 0
unfolding passed
passed-replicate zero = refl
passed-replicate (suc n) = passed-replicate n

allow_in-half_open :
    (now : ℕ) (b : CircuitBreaker)
    → b.state ≡ is_half_open
    → allow_in now b.state b ≡ (
        if b.probe_in_progress
        then ok (false, b)
        else ok (true, record b { probe_in_progress = true }))
unfolding allow_in
allow_in-half_open now b e = ap (λ (s : CircuitState). allow_in now s b) e

allow_in-refused :
    (now : ℕ) (b : CircuitBreaker)
    → b.state ≡ is_half_open
    → b.probe_in_progress ≡ true
    → allow_in now b.state b ≡ ok (false, b)
allow_in-refused now b e p =
    allow_in-half_open now b e
    ∙ ap
        (λ (p : Bool).
          if p then ok (false, b) else ok (true, record b { probe_in_progress = true }))
        p

-- While a probe is in progress, a half-open breaker rejects.
probing-rejects :
    (times : List ℕ) (b : CircuitBreaker)
    → b.state ≡ is_half_open
    → b.probe_in_progress ≡ true
    → run (map allow times) b ≡ ok (replicate (length times) false, b)
unfolding run step allow_execution
probing-rejects [] b e p = refl
probing-rejects (now ∷ times) b e p =
    rw (allow_in-refused now b e p, probing-rejects times b e p) refl

probe-single_in :
    (s : CircuitState) (times : List ℕ) (b : CircuitBreaker)
    → b.state ≡ s
    → s ≢ is_closed
    → IsValid b
    → Returns (run (map allow times) b) (λ r. passed r.0 ≤ 1)
unfolding run step allow_execution passed
probe-single_in s [] b e n v = (_, refl, omega arith)
probe-single_in is_closed (now ∷ times) b e n v = elim (n refl) [ ]
probe-single_in is_half_open (now ∷ times) b e n v = elim (Bool-cases b.probe_in_progress) [
  | inl h ↦ (
    (replicate (length (now ∷ times)) false, b),
    rw (allow_in-refused now b e h, probing-rejects times b e h) refl,
    omega (arith, passed-replicate (length times)),
  )
  | inr h ↦
      let b' : CircuitBreaker = record b { probe_in_progress = true } in
      (
        (true ∷ replicate (length times) false, b'),
        rw (allow_in-half_open now b e, h, probing-rejects times b' e refl) refl,
        omega (arith, passed-replicate (length times)),
      )
]
probe-single_in is_open (now ∷ times) b e n v =
    let (_, _, (t, o), _) = subst (λ s. Fits s b) e v.fits in
    elim (Bool-cases (ltb now (t + b.recovery_timeout))) [
      | inl h ↦
          let (r, p, q) = probe-single_in is_open times b e n v in
          ((false ∷ r.0, r.1), rw (allow_in-open now b t e o, h, p) refl, q)
      | inr h ↦ (
        (true ∷ replicate (length times) false, to_half_open b),
        rw (allow_in-open now b t e o, h, probing-rejects times (to_half_open b) refl refl) refl,
        omega (arith, passed-replicate (length times)),
      )
    ]

-- Of the executions asked for before any outcome is recorded, a breaker that is not closed lets at
-- most one through.
pub probe-single :
    (times : List ℕ) (b : CircuitBreaker)
    → b.state ≢ is_closed
    → IsValid b
    → Returns (run (map allow times) b) (λ r. passed r.0 ≤ 1)
probe-single times b n v = probe-single_in b.state times b refl n v

-- Probes in turn, each with its success.
unfoldable pub successful_probes : List ℕ → List Call
successful_probes [] = []
successful_probes (now ∷ times) = allow now ∷ success ∷ successful_probes times

success_in-half_open :
    (b : CircuitBreaker)
    → b.state ≡ is_half_open
    → success_in b.state b ≡ (
        if leb b.success_threshold (b.success_count + 1)
        then to_closed b
        else record b { probe_in_progress = false; success_count = b.success_count + 1 })
unfolding success_in
success_in-half_open b e = ap (λ (s : CircuitState). success_in s b) e

allow_in-closed :
    (now : ℕ) (b : CircuitBreaker) → b.state ≡ is_closed → allow_in now b.state b ≡ ok (true, b)
unfolding allow_in
allow_in-closed now b e = ap (λ (s : CircuitState). allow_in now s b) e

closed_passes :
    (times : List ℕ) (b : CircuitBreaker)
    → b.state ≡ is_closed
    → Returns
        (run (successful_probes times) b)
        (λ r. (r.0 ≡ replicate (length times) true) × (r.1.state ≡ is_closed))
unfolding run step allow_execution record_success successful_probes
closed_passes [] b e = (_, refl, (refl, e))
closed_passes (now ∷ times) b e =
    let (r, p, (q, q')) = closed_passes times (record b { failure_count = 0 }) e in
    (
      (true ∷ r.0, r.1),
      rw (allow_in-closed now b e, success_in-closed b e, p) refl,
      (ap (λ l. true ∷ l) q, q'),
    )

probes-IsClosed :
    (times : List ℕ) (b : CircuitBreaker)
    → b.state ≡ is_half_open
    → b.probe_in_progress ≡ false
    → b.success_count < b.success_threshold
    → Returns (run (successful_probes times) b) (λ r.
      (r.0 ≡ replicate (length times) true)
      × (r.1.state ≡ (
          if leb b.success_threshold (b.success_count + length times)
          then is_closed
          else is_half_open)))
unfolding run step allow_execution record_success successful_probes
probes-IsClosed [] b e p lt = (_, refl, (refl, ground (arith, e, lt)))
probes-IsClosed (now ∷ times) b e p lt =
    let b₁ : CircuitBreaker = record b { probe_in_progress = true } in
    elim (Bool-cases (leb b.success_threshold (b.success_count + 1))) [
      | inl h ↦
          let (r, p', (q, q')) = closed_passes times (to_closed b₁) refl in
          (
            (true ∷ r.0, r.1),
            rw (allow_in-half_open now b e, p, success_in-half_open b₁ e, h, p') refl,
            (ap (λ l. true ∷ l) q, q' ∙ ground (arith, h)),
          )
      | inr h ↦
          let (r, p', (q, q')) =
            probes-IsClosed times
              (record b { probe_in_progress = false; success_count = b.success_count + 1 }) e refl
              (ground (arith, h)) in
          (
            (true ∷ r.0, r.1),
            rw (allow_in-half_open now b e, p, success_in-half_open b₁ e, h, p') refl,
            (ap (λ l. true ∷ l) q, q' ∙ ground arith),
          )
    ]

-- A well-formed open breaker whose timeout is over allows every probe of a sequence in which each
-- succeeds before the next, and closes exactly when there are as many as the success threshold.
pub recovery-IsClosed :
    (first : ℕ) (times : List ℕ) (b : CircuitBreaker) (t : ℕ)
    → IsValid b
    → b.state ≡ is_open
    → b.opened_at ≡ some t
    → t + b.recovery_timeout ≤ first
    → Returns (run (successful_probes (first ∷ times)) b) (λ r.
      (r.0 ≡ replicate (length (first ∷ times)) true)
      × (r.1.state
          ≡ (if leb b.success_threshold (length (first ∷ times)) then is_closed else is_half_open)))
unfolding run step allow_execution record_success successful_probes
recovery-IsClosed first times b t v e o le =
    let (r, p, q) =
      probes-IsClosed (first ∷ times) (record (to_half_open b) { probe_in_progress = false }) refl
        refl (v.successes) in
    let late : ltb first (t + b.recovery_timeout) ≡ false = ground (arith, le) in
    (
      r,
      rw (allow_in-open first b t e o, late) p,
      (
        q.0,
        q.1
            ∙ ap (λ (n : ℕ). if leb b.success_threshold n then is_closed else is_half_open)
                (zero-add (suc (length times))),
      ),
    )
