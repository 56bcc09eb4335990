-- ===== src/SlidingLog/Exact.antt =====
-- The sliding window log against the history of all admitted requests (src/traffik/strategies/sliding_window.py):
-- neither the pruning of the log nor its TTL changes an answer, if no call finds the TTL of the log
-- over that has read the wall clock within the window of the last call.
use traffik.Base.{
  ℕ, ◌+◌, ◌*◌, ◌≤◌, ◌<◌, ◌≡◌, refl, sym, ap, ◌∙◌, subst, true, false, ltb, leb, Option, none, some,
  List, [], ◌∷◌, ◌++◌, append-nil, if◌then◌else◌, Bool-cases, inl, inr, arith,
}
use traffik.Rate.{Rate, unlimited}
use traffik.SlidingLog.{
  Logged, Request, Cell, Wait, allowed, ttl_seconds, entries_at, valid_entries, total_cost,
  oldest_timestamp, wait_until, store_log, logged, decide, hit, run,
}
use traffik.SlidingLog.Pruning.{
  IsPast, valid-append, valid-valid, valid-none, IsPast-later, IsPast-append,
}
use traffik.SlidingLog.Promise.{
  window_cost, total-window, Promised, admits, Kept, wait-Promised, entry_if,
}

-- The answer that a history demands, by the strategy's own arithmetic.
abbrev pub promised : Rate → Request → List Logged → Wait
promised rate r history =
    if ltb rate.limit (total_cost (valid_entries rate.expire r.now history) + r.cost)
    then wait_until rate.expire r.now (oldest_timestamp (valid_entries rate.expire r.now history))
    else allowed

-- The history of the admitted requests after one more.
abbrev pub extended : Rate → Request → List Logged → List Logged
extended rate r history =
    if ltb rate.limit (total_cost (valid_entries rate.expire r.now history) + r.cost)
    then history
    else history ++ logged r ∷ []

unfoldable pub expected : Rate → List Request → List Logged → List Wait
expected rate [] history = []
expected rate (r ∷ requests) history =
    promised rate r history ∷ expected rate requests (extended rate r history)

-- How the readings of a call stand to those of the last one: the wall clock has not gone back, and if
-- the TTL of the log that the last one stored is over when the backend reads it, the window of the
-- last one was over when this one read the wall clock.
abbrev pub After : Rate → Option Request → Request → Type 0
After rate none r = Unit {0}
After rate (some p) r =
    (p.now ≤ r.now) × (p.put + 1000 * ttl_seconds rate ≤ r.got → p.now + rate.expire ≤ r.now)

-- Every call stands so to the last one.
unfoldable pub IsTimed : Rate → Option Request → List Request → Type 0
IsTimed rate last [] = Unit {0}
IsTimed rate last (r ∷ requests) = After rate last r × IsTimed rate (some r) requests

-- The delay of a call between the wall clock and the backend's `get` may exceed that of the last one,
-- between the wall clock and `set`, by what the TTL has over the window.
pub delay-After :
    (rate : Rate) (p r : Request)
    → p.now ≤ r.now
    → r.got + p.now + rate.expire ≤ r.now + p.put + 1000 * ttl_seconds rate
    → After rate (some p) r
delay-After rate p r le lag = (le, λ over. omega (arith, lag, over))

abbrev last_now : Option Request → ℕ
last_now none = 0
last_now (some p) = p.now

After-le :
    (rate : Rate) (last : Option Request) (r : Request) → After rate last r → last_now last ≤ r.now
After-le rate none r a = omega arith
After-le rate (some p) r a = a.0

-- A cell stands for a history: for each call that may come next, it has the history's window.
pub StandsFor : Rate → Option Request → Option Cell → List Logged → Type 0
StandsFor rate last cell history =
    (r : Request)
    → After rate last r
    → valid_entries rate.expire r.now (entries_at r.got cell)
      ≡ valid_entries rate.expire r.now history

-- What a call stores stands for a history of which it has the window.
store_log-StandsFor :
    (rate : Rate) (p : Request) (log history : List Logged)
    → IsPast p.now history
    → ((t : ℕ) → p.now ≤ t → valid_entries rate.expire t log ≡ valid_entries rate.expire t history)
    → StandsFor rate (some p) (store_log rate p.put log) history
unfolding StandsFor entries_at valid_entries
store_log-StandsFor rate p log history past same r after =
    elim (Bool-cases (leb (p.put + 1000 * ttl_seconds rate) r.got)) [
      | inl over ↦
          rw (over) (sym (valid-none rate.expire p.now r.now history past (after.1 (passed over))))
      | inr e ↦ rw (e) (same r.now (after.0))
    ]
  where
    passed :
        leb (p.put + 1000 * ttl_seconds rate) r.got ≡ true → p.put + 1000 * ttl_seconds rate ≤ r.got
    passed over = ground (arith, over)

record Answered (rate : Rate) (r : Request) (history : List Logged) (a : Wait × Option Cell)
    : Type 0 where
  answer : a.0 ≡ promised rate r history
  stands : StandsFor rate (some r) a.1 (extended rate r history)
  past : IsPast r.now (extended rate r history)

decide-Answered :
    (rate : Rate) (r : Request) (history : List Logged)
    → IsPast r.now history
    → Answered rate r history (decide rate r (valid_entries rate.expire r.now history))
unfolding decide IsPast
decide-Answered rate r history past =
    let valid = valid_entries rate.expire r.now history in
    elim (Bool-cases (ltb rate.limit (total_cost valid + r.cost))) [
      | inl over ↦ record {
        answer = rw (over) refl;
        stands = rw (over) (
            store_log-StandsFor rate r valid history past
              (λ t le. valid-valid rate.expire r.now t history le));
        past = rw (over) past;
      }
      | inr room ↦
          let last : List Logged = logged r ∷ [] in
          let past' : IsPast r.now (history ++ last) =
            IsPast-append r.now history last past (omega arith, tt) in
          record {
            answer = rw (room) refl;
            stands = rw (room) (
                store_log-StandsFor rate r (valid ++ last) (history ++ last) past' (λ t le.
                  valid-append rate.expire t valid last
                  ∙ ap (λ l. l ++ valid_entries rate.expire t last)
                      (valid-valid rate.expire r.now t history le)
                  ∙ sym (valid-append rate.expire t history last)));
            past = rw (room) past';
          }
    ]

hit-Answered :
    (rate : Rate) (last : Option Request) (r : Request) (cell : Option Cell) (history : List Logged)
    → unlimited rate ≡ false
    → StandsFor rate last cell history
    → IsPast (last_now last) history
    → After rate last r
    → Answered rate r history (hit rate r cell)
unfolding hit StandsFor
hit-Answered rate last r cell history limited stands past after =
    rw (limited, stands r after)
      (decide-Answered rate r history
        (IsPast-later (last_now last) r.now history (After-le rate last r after) past))

run-eq-expected_from :
    (rate : Rate) (last : Option Request) (requests : List Request) (cell : Option Cell)
    (history : List Logged)
    → unlimited rate ≡ false
    → StandsFor rate last cell history
    → IsPast (last_now last) history
    → IsTimed rate last requests
    → run rate requests cell ≡ expected rate requests history
unfolding run expected IsTimed
run-eq-expected_from rate last [] cell history limited stands past timed = refl
run-eq-expected_from rate last (r ∷ requests) cell history limited stands past timed =
    let a = hit-Answered rate last r cell history limited stands past (timed.0) in
    let h = hit rate r cell in
    ap (λ w. w ∷ run rate requests h.1) (a.answer)
    ∙ ap (λ l. promised rate r history ∷ l)
        (run-eq-expected_from rate (some r) requests h.1 (extended rate r history) limited a.stands
          a.past (timed.1))

pub run-eq-expected :
    (rate : Rate) (requests : List Request)
    → unlimited rate ≡ false
    → IsTimed rate none requests
    → run rate requests none ≡ expected rate requests []
unfolding StandsFor entries_at valid_entries IsPast
run-eq-expected rate requests limited timed =
    run-eq-expected_from rate none requests none [] limited (λ r _. refl) tt timed

entry_if-wait :
    (duration : ℕ) (r : Request) (oldest : Option ℕ)
    → entry_if (wait_until duration r.now oldest) r ≡ []
entry_if-wait duration r none = refl
entry_if-wait duration r (some oldest) = refl

pub extended-entry :
    (rate : Rate) (r : Request) (history : List Logged)
    → extended rate r history ≡ history ++ entry_if (promised rate r history) r
extended-entry rate r history =
    elim (Bool-cases
      (ltb rate.limit (total_cost (valid_entries rate.expire r.now history) + r.cost))) [
        | inl over ↦ rw (over) (
            sym (
              ap (λ l. history ++ l)
                (entry_if-wait rate.expire r
                  (oldest_timestamp (valid_entries rate.expire r.now history)))
              ∙ append-nil history))
        | inr room ↦ rw (room) refl
      ]

promised-Promised :
    (rate : Rate) (r : Request) (history : List Logged)
    → Promised rate r history (promised rate r history)
promised-Promised rate r history =
    elim (Bool-cases
      (ltb rate.limit (total_cost (valid_entries rate.expire r.now history) + r.cost))) [
        | inl over ↦ rw (over) (wait-Promised rate r history (full over))
        | inr room ↦ rw (room) (admits (fits room) refl)
      ]
  where
    full :
        ltb rate.limit (total_cost (valid_entries rate.expire r.now history) + r.cost) ≡ true
        → rate.limit < window_cost rate.expire r.now history + r.cost
    full e = ground (arith, e, total-window rate.expire r.now history)

    fits :
        ltb rate.limit (total_cost (valid_entries rate.expire r.now history) + r.cost) ≡ false
        → window_cost rate.expire r.now history + r.cost ≤ rate.limit
    fits e = ground (arith, e, total-window rate.expire r.now history)

expected-Kept :
    (rate : Rate) (requests : List Request) (history : List Logged)
    → Kept rate requests (expected rate requests history) history
unfolding expected Kept
expected-Kept rate [] history = tt
expected-Kept rate (r ∷ requests) history = (
  promised-Promised rate r history,
  subst (Kept rate requests (expected rate requests (extended rate r history)))
      (extended-entry rate r history) (expected-Kept rate requests (extended rate r history)),
)

-- At a limited rate, requests whose readings stand in order, from an empty cell on, are answered as
-- the history of all admitted requests demands: each is admitted exactly if the costs admitted within
-- the window leave room for it, and is told else to wait until the first of them leaves the window,
-- or for ever if there is none. The readings stand in order if the wall clock does not go back from
-- call to call, and each call that finds the TTL of the last one over read the wall clock after the
-- window of the last one.
pub run-exact :
    (rate : Rate) (requests : List Request)
    → unlimited rate ≡ false
    → IsTimed rate none requests
    → Kept rate requests (run rate requests none) []
run-exact rate requests limited timed =
    subst (λ w. Kept rate requests w []) (sym (run-eq-expected rate requests limited timed))
      (expected-Kept rate requests [])
