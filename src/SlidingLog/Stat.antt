-- ===== src/SlidingLog/Stat.antt =====
-- `get_stat` of the sliding window log (src/traffik/strategies/sliding_window.py) against the call.
use traffik.Base.{
  ℕ, ◌+◌, ◌-◌, ◌≤◌, ◌<◌, ◌≡◌, ◌↔◌, refl, false, ltb, leb, Option, none, some, List, length,
  if◌then◌else◌, Bool-cases, inl, inr, arith,
}
use traffik.Rate.{Rate, unlimited}
use traffik.SlidingLog.{
  Logged, Request, Cell, allowed, entries_at, valid_entries, total_cost, oldest_timestamp,
  wait_until, decide, hit,
}

-- What `get_stat` reports; no hits remaining stands for infinitely many.
pub record Stat : Type 0 where
  pub hits_remaining : Option ℕ
  pub wait : ℕ
  pub entry_count : ℕ
  pub current_total_cost : ℕ
  pub oldest_entry_ms : Option ℕ

-- `max((oldest_timestamp + window_duration_ms) - now, 0.0)`, and zero without an entry.
abbrev pub rest_after : ℕ → ℕ → Option ℕ → ℕ
rest_after duration now none = 0
rest_after duration now (some oldest) = oldest + duration - now

unfoldable pub stat_of : Rate → ℕ → List Logged → Stat
stat_of rate now valid = record {
  hits_remaining = some (rate.limit - total_cost valid);
  wait =
      if leb rate.limit (total_cost valid)
      then rest_after rate.expire now (oldest_timestamp valid)
      else 0;
  entry_count = length valid;
  current_total_cost = total_cost valid;
  oldest_entry_ms = oldest_timestamp valid;
}

-- `get_stat`, with the wall clock and the backend's clock as it reads them.
unfoldable pub get_stat : Rate → ℕ → ℕ → Option Cell → Stat
unfolding stat_of
get_stat rate now got cell =
    if unlimited rate
    then record {
      hits_remaining = none;
      wait = 0;
      entry_count = 0;
      current_total_cost = 0;
      oldest_entry_ms = none;
    }
    else stat_of rate now (valid_entries rate.expire now (entries_at got cell))

-- A cost within the hits that remain.
abbrev pub Within : ℕ → Option ℕ → Type 0
Within cost none = Unit {0}
Within cost (some n) = cost ≤ n

wait_until-ne-allowed :
    (duration now : ℕ) (oldest : Option ℕ) → wait_until duration now oldest ≡ allowed → ⊥
wait_until-ne-allowed duration now none e = cc e
wait_until-ne-allowed duration now (some oldest) e = cc e

-- A request with a cost, at a limited rate, is admitted exactly if its cost is within the hits that
-- `get_stat` reports at the same readings as remaining.
pub get_stat-hit :
    (rate : Rate) (r : Request) (cell : Option Cell)
    → unlimited rate ≡ false
    → 0 < r.cost
    → ((hit rate r cell).0 ≡ allowed)
      ↔ Within r.cost (get_stat rate r.now r.got cell).hits_remaining
unfolding hit decide get_stat
get_stat-hit rate r cell limited some_cost =
    let valid = valid_entries rate.expire r.now (entries_at r.got cell) in
    elim (Bool-cases (ltb rate.limit (total_cost valid + r.cost))) [
      | inl over ↦
          rw (limited, over)
            (
              (λ e. elim (wait_until-ne-allowed rate.expire r.now (oldest_timestamp valid) e) [ ]),
              (λ le. absurd (ground (arith, over, le, some_cost))),
            )
      | inr room ↦ rw (limited, room) ((λ _. ground (arith, room)), (λ _. refl))
    ]
