-- ===== src/Quota.antt =====
-- `QuotaContext` and `_QuotaEntry` of src/traffik/quotas.py: the queue of costs, their aggregation, and the
-- application of the queue with its retries. A throttle, a retry condition and a backoff are compared
-- by identity, which is a number here; a context is a value with the dictionary's `==`. What a
-- throttle does when it is hit, and what it costs, are parameters that act on a world `W`. The
-- children that an `apply` merges stand beside the context as a list; nothing of the code looks
-- at a child's own children. Costs are natural numbers.
pub mod Apply
pub mod Hits
pub mod Queue
pub mod Settled
mod Tests
use traffik.Base.{
  ℕ, zero, suc, ◌+◌, Bool, true, false, not, ◌&&◌, ◌||◌, Option, none, some, List, [], ◌∷◌, ◌++◌,
  ◌==◌, if◌then◌else◌,
}
use traffik.Result.{
  Error, value_error, quota_error, quota_applied_error, quota_cancelled_error, Result, ok, err,
  ◌>>=◌, ◌>>◌, raise_if,
}

-- `is` of two values that may be None, and `==` of two that may be None.
abbrev pub same_option : {A : Type 0} → (A → A → Bool) → Option A → Option A → Bool
same_option eq none none = true
same_option eq (some a) (some b) = eq a b
same_option eq none (some b) = false
same_option eq (some a) none = false

abbrev pub same_flag : Bool → Bool → Bool
same_flag true b = b
same_flag false b = not b

-- What `_hit` sees of one hit: it is counted, it raises what is never retried, or it raises what
-- `_should_retry` answers for.
pub data Attempt : Type 0 where
  counted : Attempt
  non_retryable : Error → Attempt
  raised : Error → Bool → Attempt

abbrev pub is_fixed : Option ℕ → Bool
is_fixed none = false
is_fixed (some c) = true

abbrev pub plus_cost : Option ℕ → Option ℕ → Option ℕ
plus_cost (some a) (some b) = some (a + b)
plus_cost a b = a

abbrev pub or_owner : Option ℕ → Option ℕ → Result ℕ
or_owner (some throttle) owner = ok throttle
or_owner none (some owner) = ok owner
or_owner none none = err value_error

abbrev pub is_zero : Option ℕ → Bool
is_zero none = false
is_zero (some c) = c == 0

-- `cost if cost is not None else (throttle.cost if not throttle._uses_cost_func else 1)`
abbrev pub estimated : Option ℕ → ℕ → ℕ
estimated none throttle_cost = throttle_cost
estimated (some c) throttle_cost = c

-- Whether the context is consumed after the loop of `apply`.
abbrev pub consumed_after : Result (Unit {0}) → Bool → Bool
consumed_after (ok _) consumed = true
consumed_after (err e) consumed = consumed

module _ (Context : Type 0) (same_context : Context → Context → Bool) where
  -- `_QuotaEntry`
  pub record Entry : Type 0 where
    pub throttle : ℕ
    pub cost : Option ℕ
    pub resolved_cost : ℕ
    pub context : Option Context
    pub skip_handler : Option Bool
    pub retry : ℕ
    pub retry_on : Option ℕ
    pub backoff : ℕ
    pub base_delay : ℕ

  -- `QuotaContext`
  pub record Quota : Type 0 where
    pub owner : Option ℕ
    pub queue : List Entry
    pub queued_cost : ℕ
    pub applied_cost : ℕ
    pub consumed : Bool
    pub cancelled : Bool

  -- The arguments of `consume`, with the context merged into the default one.
  pub record Request : Type 0 where
    pub throttle : Option ℕ
    pub cost : Option ℕ
    pub context : Option Context
    pub skip_handler : Option Bool
    pub retry : ℕ
    pub retry_on : Option ℕ
    pub backoff : ℕ
    pub base_delay : ℕ

  -- A context that was just constructed.
  unfoldable pub open_quota : Option ℕ → Quota
  open_quota owner = record {
    owner = owner;
    queue = [];
    queued_cost = 0;
    applied_cost = 0;
    consumed = false;
    cancelled = false;
  }

  -- `_can_aggregate`
  unfoldable pub can_aggregate : Entry → Entry → Bool
  can_aggregate last e =
      (last.throttle == e.throttle)
      && (same_option same_context last.context e.context)
      && (same_option same_flag last.skip_handler e.skip_handler)
      && (is_fixed last.cost && is_fixed e.cost)
      && (last.retry == e.retry)
      && (same_option (λ a b. a == b) last.retry_on e.retry_on)
      && (last.backoff == e.backoff)
      && (last.base_delay == e.base_delay)

  -- The end of `_enqueue`: the cost goes to the last entry, or a new entry is appended.
  unfoldable pub put_last : Entry → List Entry → List Entry
  put_last e [] = e ∷ []
  put_last e (last ∷ []) =
      if can_aggregate last e
      then record last {
        cost = plus_cost last.cost e.cost;
        resolved_cost = last.resolved_cost + e.resolved_cost;
      }
        ∷ []
      else last ∷ e ∷ []
  put_last e (first ∷ next ∷ queue) = first ∷ put_last e (next ∷ queue)

  -- The entry of a request; `estimate` is the fixed cost of each throttle, or 1.
  abbrev pub entry_of : (ℕ → ℕ) → ℕ → Request → Entry
  entry_of estimate throttle r = record {
    throttle = throttle;
    cost = r.cost;
    resolved_cost = estimated r.cost (estimate throttle);
    context = r.context;
    skip_handler = r.skip_handler;
    retry = r.retry;
    retry_on = r.retry_on;
    backoff = r.backoff;
    base_delay = r.base_delay;
  }

  unfoldable pub put_request : (ℕ → ℕ) → Request → Quota → Result ℕ → Result Quota
  put_request estimate r q (err e) = err e
  put_request estimate r q (ok throttle) =
      let e = entry_of estimate throttle r in
      ok (record q { queue = put_last e q.queue; queued_cost = q.queued_cost + e.resolved_cost })

  -- `_enqueue`
  unfoldable pub enqueue : (ℕ → ℕ) → Request → Quota → Result Quota
  unfolding put_request
  enqueue estimate r q = do
    raise_if q.cancelled quota_cancelled_error
    raise_if q.consumed quota_applied_error
    if is_zero r.cost then ok q else put_request estimate r q (or_owner r.throttle q.owner)

  -- Calls of `consume` one after the other.
  unfoldable pub enqueue_all : (ℕ → ℕ) → List Request → Quota → Result Quota
  enqueue_all estimate [] q = ok q
  enqueue_all estimate (r ∷ requests) q = do
    q' ← enqueue estimate r q
    enqueue_all estimate requests q'

  -- `_merge_into_parent` of a child: the parent, and the child after it.
  unfoldable pub merge_into : Quota → Quota → Quota
  merge_into child parent = record parent {
    queue = parent.queue ++ child.queue;
    queued_cost = parent.queued_cost + child.queued_cost;
  }

  unfoldable pub merge : Quota → Quota → Result (Quota × Quota)
  unfolding merge_into
  merge child parent = do
    raise_if child.cancelled quota_cancelled_error
    raise_if child.consumed quota_applied_error
    ok (record child { consumed = true }, merge_into child parent)

  -- The children that are not consumed, one after the other.
  unfoldable pub merge_all : List Quota → Quota → Quota
  unfolding merge_into
  merge_all [] q = q
  merge_all (child ∷ children) q =
      merge_all children (if child.consumed then q else merge_into child q)

  -- `cancel` of a context without children.
  unfoldable pub cancel : Quota → Result Quota
  cancel q = do
    raise_if q.consumed quota_applied_error
    ok (if q.cancelled then q else record q { queue = []; queued_cost = 0; cancelled = true })

  module _ (W : Type 0) (throttle_cost : Entry → W → Result ℕ × W)
      (hit : Entry → W → Attempt × W) where
    -- `resolve_cost`
    unfoldable pub resolve_in : Option ℕ → Entry → W → Result ℕ × W
    resolve_in (some c) e w = (ok c, w)
    resolve_in none e w = throttle_cost e w

    unfoldable pub after_attempt :
        ℕ → Attempt × W → (W → Result (Unit {0}) × W) → Result (Unit {0}) × W
    after_attempt left (counted, w) again = (ok tt, w)
    after_attempt left (non_retryable e, w) again = (err e, w)
    after_attempt left (raised e retry, w) again =
        if not (left == 0) && retry then again w else (err e, w)

    -- The loop of `_hit` with `n` attempts left.
    unfoldable pub attempts : ℕ → Entry → W → Result (Unit {0}) × W
    unfolding after_attempt
    attempts zero e w = (ok tt, w)
    attempts (suc n) e w = after_attempt n (hit e w) (attempts n e)

    -- What a part of `apply` leaves: the entries, the cost that was applied, and the world.
    pub record Progress : Type 0 where
      pub result : Result (Unit {0})
      pub entries : List Entry
      pub applied : ℕ
      pub world : W

    abbrev pub fix_cost : ℕ → Entry → Entry
    fix_cost c e = record e { cost = some c; resolved_cost = c }

    unfoldable pub hit_done :
        ℕ → Entry → List Entry → ℕ → Result (Unit {0}) × W → (ℕ → W → Progress) → Progress
    hit_done c e queue applied (err x, w) rest = record {
      result = err x;
      entries = fix_cost c e ∷ queue;
      applied = applied;
      world = w;
    }
    hit_done c e queue applied (ok _, w) rest =
        let p = rest (applied + c) w in record p { entries = fix_cost c e ∷ p.entries }

    unfoldable pub hit_resolved :
        Entry → List Entry → ℕ → Result ℕ × W → (ℕ → W → Progress) → Progress
    unfolding hit_done attempts
    hit_resolved e queue applied (err x, w) rest = record {
      result = err x;
      entries = e ∷ queue;
      applied = applied;
      world = w;
    }
    hit_resolved e queue applied (ok c, w) rest =
        hit_done c e queue applied (attempts (e.retry + 1) (fix_cost c e) w) rest

    -- The loop of `apply`, with `_hit` of each entry.
    unfoldable pub hit_all : List Entry → ℕ → W → Progress
    unfolding hit_resolved resolve_in
    hit_all [] applied w = record { result = ok tt; entries = []; applied = applied; world = w }
    hit_all (e ∷ queue) applied w =
        hit_resolved e queue applied (resolve_in e.cost e w) (hit_all queue)

    unfoldable pub finish : Quota → Progress → Result (Unit {0}) × Quota × W
    finish q p = (
      p.result,
      record q {
        queue = p.entries;
        applied_cost = p.applied;
        consumed = consumed_after p.result q.consumed;
      },
      p.world,
    )

    unfoldable pub apply_in : Bool → Bool → List Quota → Quota → W → Result (Unit {0}) × Quota × W
    unfolding finish
    apply_in true consumed children q w = (err quota_cancelled_error, q, w)
    apply_in false true children q w = (ok tt, q, w)
    apply_in false false children q w =
        let merged = merge_all children q in
        finish merged (hit_all merged.queue merged.applied_cost w)

    -- `apply` of a context without a parent, with its children.
    unfoldable pub apply : List Quota → Quota → W → Result (Unit {0}) × Quota × W
    unfolding apply_in
    apply children q w = apply_in q.cancelled q.consumed children q w
