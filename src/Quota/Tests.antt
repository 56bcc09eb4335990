-- ===== src/Quota/Tests.antt =====
-- Runs of a quota context that is bound to throttle 1 (src/traffik/quotas.py). The world is the list of
-- what the next hits do; after it, every hit counts.
use traffik.Base.{ℕ, ◌≡◌, refl, true, false, Option, some, none, List, [], ◌∷◌}
use traffik.Base.Text.{Str, str_eq}
use traffik.Result.{lock_timeout_error, backend_error, Result, ok, Returns}
use traffik.Quota.{
  Entry, Quota, Request, Attempt, counted, raised, non_retryable, open_quota, enqueue_all, enqueue,
  put_request, put_last, can_aggregate, merge_all, apply, apply_in, finish, hit_all, hit_resolved,
  hit_done, resolve_in, attempts, after_attempt,
}
use traffik.Quota.Queue.{IsResolved, Queued, enqueue_all-Queued}
use traffik.Quota.Apply.{Applied, ChargedTwice, pending, apply-Applied, apply-twice}
use traffik.Quota.Settled.{IsSettled}

abbrev costs : Entry Str str_eq → List Attempt → Result ℕ × List Attempt
costs e w = (ok 1, w)

abbrev hits : Entry Str str_eq → List Attempt → Attempt × List Attempt
hits e [] = (counted, [])
hits e (a ∷ w) = (a, w)

abbrev ask : Option ℕ → ℕ → Request Str str_eq
ask throttle cost = record {
  throttle = throttle;
  cost = some cost;
  context = none;
  skip_handler = none;
  retry = 1;
  retry_on = none;
  backoff = 0;
  base_delay = 1;
}

-- The first two are aggregated.
abbrev requests : List (Request Str str_eq)
requests = ask none 2 ∷ ask (some 1) 3 ∷ ask (some 2) 4 ∷ []

enqueue_all-Queued_example :
    Returns
      (enqueue_all Str str_eq (λ throttle. 1) requests (open_quota Str str_eq (some 1)))
      (Queued Str str_eq (λ throttle. 1) 1 requests (open_quota Str str_eq (some 1)))
unfolding open_quota IsResolved
enqueue_all-Queued_example =
    enqueue_all-Queued Str str_eq (λ throttle. 1) 1 requests (open_quota Str str_eq (some 1)) refl
      refl refl tt

abbrev entry : ℕ → ℕ → Entry Str str_eq
entry throttle cost = record {
  throttle = throttle;
  cost = some cost;
  resolved_cost = cost;
  context = none;
  skip_handler = none;
  retry = 1;
  retry_on = none;
  backoff = 0;
  base_delay = 1;
}

abbrev two_entries : Quota Str str_eq
two_entries = record {
  owner = some 1;
  queue = entry 1 5 ∷ entry 2 4 ∷ [];
  queued_cost = 9;
  applied_cost = 0;
  consumed = false;
  cancelled = false;
}

queue-aggregated :
    enqueue_all Str str_eq (λ throttle. 1) requests (open_quota Str str_eq (some 1))
    ≡ ok two_entries
unfolding enqueue_all enqueue put_request put_last can_aggregate open_quota
queue-aggregated = refl

-- The first entry succeeds in its second attempt, the second raises what is not retried.
abbrev script : List Attempt
script = raised backend_error true ∷ counted ∷ non_retryable lock_timeout_error ∷ []

-- A child with an entry of its own.
abbrev child : Quota Str str_eq
child = record (open_quota Str str_eq none) { queue = entry 3 2 ∷ []; queued_cost = 2 }

apply-Applied_example :
    Applied Str str_eq
      (List Attempt)
      costs
      hits
      (child ∷ [])
      two_entries
      script
      (apply Str str_eq (List Attempt) costs hits (child ∷ []) two_entries script)
apply-Applied_example =
    apply-Applied Str str_eq (List Attempt) costs hits (child ∷ []) two_entries script refl refl

apply-twice_example :
    ChargedTwice Str str_eq
      (List Attempt)
      costs
      hits
      two_entries.queue
      0
      lock_timeout_error
      script
      []
      (apply Str str_eq (List Attempt) costs hits [] two_entries script)
      (apply Str str_eq
        (List Attempt)
        costs
        hits
        []
        (apply Str str_eq (List Attempt) costs hits [] two_entries script).1
        [])
unfolding apply apply_in finish hit_all hit_resolved hit_done resolve_in attempts after_attempt
    merge_all IsSettled pending
apply-twice_example =
    apply-twice Str str_eq (List Attempt) costs hits [] two_entries script [] lock_timeout_error
      refl refl (refl, (refl, tt)) refl refl
