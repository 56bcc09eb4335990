-- ===== src/SlidingLog/Limit.antt =====
-- The limit of the sliding window log (src/traffik/strategies/sliding_window.py) in every window, and the
-- readings of the clocks at which it fails.
use traffik.Base.{
  ℕ, ◌+◌, ◌-◌, ◌*◌, ◌≤◌, ◌<◌, ◌≡◌, refl, sym, ap, ◌∙◌, subst, true, false, ltb, leb, Option, none,
  some, List, [], ◌∷◌, ◌++◌, append-nil, append_assoc, Bool-cases, inl, inr, arith,
}
use traffik.Rate.{Rate, unlimited}
use traffik.SlidingLog.{
  Logged, Request, Wait, allowed, wait_ms, ttl_seconds, entries_at, valid_entries, total_cost,
  oldest_timestamp, logged, decide, hit, run,
}
use traffik.SlidingLog.Promise.{window_cost, total-window, entry_if}
use traffik.SlidingLog.Exact.{
  promised, extended, expected, IsTimed, After, run-eq-expected, extended-entry,
}

-- The admitted requests.
unfoldable pub admitted : List Request → List Wait → List Logged
admitted [] waits = []
admitted (r ∷ requests) [] = []
admitted (r ∷ requests) (w ∷ waits) = entry_if w r ++ admitted requests waits

-- When the last request read the wall clock.
unfoldable pub last_time : ℕ → List Request → ℕ
last_time t [] = t
last_time t (r ∷ requests) = last_time r.now requests

window-append :
    (duration t : ℕ) (a b : List Logged)
    → window_cost duration t (a ++ b) ≡ window_cost duration t a + window_cost duration t b
unfolding window_cost
window-append duration t [] b = omega arith
window-append duration t (x ∷ a) b = omega (arith, window-append duration t a b)

window-later :
    (duration now t : ℕ) (log : List Logged)
    → now ≤ t
    → window_cost duration t log ≤ window_cost duration now log
unfolding window_cost
window-later duration now t [] le = omega arith
window-later duration now t (x ∷ log) le = ground (arith, window-later duration now t log le, le)

window-single : (duration t : ℕ) (x : Logged) → window_cost duration t (x ∷ []) ≤ x.cost
unfolding window_cost
window-single duration t x = ground arith

extended-le :
    (rate : Rate) (r : Request) (t : ℕ) (history : List Logged)
    → r.now ≤ t
    → window_cost rate.expire r.now history ≤ rate.limit
    → window_cost rate.expire t (extended rate r history) ≤ rate.limit
extended-le rate r t history le bound =
    elim (Bool-cases
      (ltb rate.limit (total_cost (valid_entries rate.expire r.now history) + r.cost))) [
        | inl over ↦ rw (over) (omega (arith, window-later rate.expire r.now t history le, bound))
        | inr room ↦ rw (room) (
            omega (
              arith,
              window-later rate.expire r.now t history le,
              window-append rate.expire t history (logged r ∷ []),
              window-single rate.expire t (logged r),
              room_le room,
            ))
      ]
  where
    room_le :
        ltb rate.limit (total_cost (valid_entries rate.expire r.now history) + r.cost) ≡ false
        → window_cost rate.expire r.now history + r.cost ≤ rate.limit
    room_le e = ground (arith, e, total-window rate.expire r.now history)

expected-le :
    (rate : Rate) (last : Option Request) (t₀ t : ℕ) (requests : List Request)
    (history : List Logged)
    → ((now : ℕ) → t₀ ≤ now → window_cost rate.expire now history ≤ rate.limit)
    → ((r : Request) → After rate last r → t₀ ≤ r.now)
    → IsTimed rate last requests
    → last_time t₀ requests ≤ t
    → window_cost rate.expire t (history ++ admitted requests (expected rate requests history))
      ≤ rate.limit
unfolding expected admitted IsTimed last_time
expected-le rate last t₀ t [] history bound later timed le =
    subst (λ l. window_cost rate.expire t l ≤ rate.limit) (sym (append-nil history)) (bound t le)
expected-le rate last t₀ t (r ∷ requests) history bound later timed le =
    let after = extended rate r history in
    subst (λ l. window_cost rate.expire t l ≤ rate.limit)
      (ap (λ l. l ++ admitted requests (expected rate requests after))
          (extended-entry rate r history)
        ∙ append_assoc history (entry_if (promised rate r history) r)
            (admitted requests (expected rate requests after)))
      (expected-le rate (some r) r.now t requests after
        (λ t' le'. extended-le rate r t' history le' (bound r.now (later r (timed.0)))) (λ _ a. a.0)
        (timed.1) le)

-- At a limited rate, the costs that the strategy admits of requests whose readings stand in order,
-- from an empty cell on, never exceed the limit within any window that ends when the last request
-- read the wall clock, or later. The readings stand in order if the wall clock does not go back from
-- call to call, and each call that finds the TTL of the last one over read the wall clock after the
-- window of the last one.
pub admitted-limit :
    (rate : Rate) (requests : List Request) (t : ℕ)
    → unlimited rate ≡ false
    → IsTimed rate none requests
    → last_time 0 requests ≤ t
    → window_cost rate.expire t (admitted requests (run rate requests none)) ≤ rate.limit
unfolding window_cost
admitted-limit rate requests t limited timed le =
    subst (λ w. window_cost rate.expire t (admitted requests w) ≤ rate.limit)
      (sym (run-eq-expected rate requests limited timed))
      (expected-le rate none 0 t requests [] (λ now le. omega arith) (λ r _. omega arith) timed le)

-- A request of the whole limit.
abbrev pub whole : Rate → Request → Request
whole rate r = record r { cost = rate.limit }

-- At a limited rate with a positive limit, two requests of the whole limit, the second of which reads
-- the wall clock within the window of the first, and the backend when the TTL of the log is over:
-- both are admitted, where the promise is that the second waits for the rest of the window.
pub log-lost :
    (rate : Rate) (a b : Request)
    → unlimited rate ≡ false
    → 0 < rate.limit
    → b.now < a.now + rate.expire
    → a.put + 1000 * ttl_seconds rate ≤ b.got
    → (run rate (whole rate a ∷ whole rate b ∷ []) none ≡ allowed ∷ allowed ∷ [])
      × (expected rate (whole rate a ∷ whole rate b ∷ []) []
          ≡ allowed ∷ wait_ms (a.now + rate.expire - b.now) ∷ [])
unfolding run hit decide entries_at valid_entries total_cost expected oldest_timestamp
log-lost rate a b limited some_limit within late =
    let fits : ltb rate.limit (0 + rate.limit) ≡ false = ground arith in
    let over : leb (a.put + 1000 * ttl_seconds rate) b.got ≡ true = ground (arith, late) in
    let still : ltb b.now (a.now + rate.expire) ≡ true = ground (arith, within) in
    let full : ltb rate.limit (rate.limit + 0 + rate.limit) ≡ true = ground (arith, some_limit) in
    (rw (limited, fits, over, fits) refl, rw (fits, still, full) refl)
