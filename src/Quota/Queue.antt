-- ===== src/Quota/Queue.antt =====
-- The queue of a quota context (src/traffik/quotas.py): aggregation keeps what every throttle is charged.
use traffik.Base.{
  ℕ, ◌+◌, ◌≡◌, refl, Bool, true, false, Option, none, some, List, [], ◌∷◌, ◌==◌, if◌then◌else◌,
  Bool-cases, inl, inr, arith,
}
use traffik.Result.{ok, Returns}
use traffik.Quota.{
  Entry, Quota, Request, can_aggregate, plus_cost, put_last, is_fixed, is_zero, estimated, or_owner,
  entry_of, put_request, enqueue, enqueue_all,
}

abbrev pub target : Option ℕ → ℕ → ℕ
target none owner = owner
target (some throttle) owner = throttle

target-or_owner : (t : Option ℕ) (owner : ℕ) → or_owner t (some owner) ≡ ok (target t owner)
target-or_owner none owner = refl
target-or_owner (some throttle) owner = refl

zero-estimated : (c : Option ℕ) (n : ℕ) → is_zero c ≡ true → estimated c n ≡ 0
zero-estimated none n e = cc e
zero-estimated (some c) n e = ground (arith, e)

module _ (Context : Type 0) (same_context : Context → Context → Bool) where
  -- What the entries of a throttle, and all entries, add up to.
  unfoldable pub charged : ℕ → List (Entry Context same_context) → ℕ
  charged throttle [] = 0
  charged throttle (e ∷ queue) =
      (if e.throttle == throttle then e.resolved_cost else 0) + charged throttle queue

  unfoldable pub total : List (Entry Context same_context) → ℕ
  total [] = 0
  total (e ∷ queue) = e.resolved_cost + total queue

  -- An entry whose cost is given has that cost as its resolved cost.
  unfoldable pub IsResolved : List (Entry Context same_context) → Type 0
  IsResolved [] = Unit {0}
  IsResolved (e ∷ queue) =
      (is_fixed e.cost ≡ true → e.cost ≡ some (e.resolved_cost)) × IsResolved queue

  -- What a request in a context of `owner` asks of a throttle; `estimate` stands in for a cost that it
  -- does not give.
  abbrev pub asked : (ℕ → ℕ) → ℕ → ℕ → Request Context same_context → ℕ
  asked estimate owner throttle r =
      if target r.throttle owner == throttle
      then estimated r.cost (estimate (target r.throttle owner))
      else 0

  unfoldable pub asked_all : (ℕ → ℕ) → ℕ → ℕ → List (Request Context same_context) → ℕ
  asked_all estimate owner throttle [] = 0
  asked_all estimate owner throttle (r ∷ requests) =
      asked estimate owner throttle r + asked_all estimate owner throttle requests

  aggregates-same :
      (last e : Entry Context same_context)
      → can_aggregate Context same_context last e ≡ true
      → (last.throttle ≡ e.throttle) × (is_fixed last.cost ≡ true) × (is_fixed e.cost ≡ true)
  unfolding can_aggregate
  aggregates-same last e h = (ground (arith, h), ground (arith, h), ground (arith, h))

  put_last-total :
      (e : Entry Context same_context) (queue : List (Entry Context same_context))
      → total (put_last Context same_context e queue) ≡ total queue + e.resolved_cost
  unfolding put_last total
  put_last-total e [] = omega arith
  put_last-total e (last ∷ []) = elim (Bool-cases (can_aggregate Context same_context last e)) [
    | inl h ↦ rw (h) (omega arith)
    | inr h ↦ rw (h) (omega arith)
  ]
  put_last-total e (first ∷ next ∷ queue) = omega (arith, put_last-total e (next ∷ queue))

  put_last-charged :
      (throttle : ℕ) (e : Entry Context same_context) (queue : List (Entry Context same_context))
      → charged throttle (put_last Context same_context e queue)
        ≡ charged throttle queue + (if e.throttle == throttle then e.resolved_cost else 0)
  unfolding put_last charged
  put_last-charged throttle e [] = omega arith
  put_last-charged throttle e (last ∷ []) =
      elim (Bool-cases (can_aggregate Context same_context last e)) [
        | inl h ↦ rw (h, (aggregates-same last e h).0) (ground arith)
        | inr h ↦ rw (h) (omega arith)
      ]
  put_last-charged throttle e (first ∷ next ∷ queue) =
      omega (arith, put_last-charged throttle e (next ∷ queue))

  plus_cost-fixed :
      (a b : Option ℕ) (m n : ℕ)
      → is_fixed a ≡ true
      → is_fixed b ≡ true
      → a ≡ some m
      → b ≡ some n
      → plus_cost a b ≡ some (m + n)
  plus_cost-fixed a b m n _ _ e f = rw (e, f) refl

  put_last-IsResolved :
      (e : Entry Context same_context) (queue : List (Entry Context same_context))
      → IsResolved queue
      → (is_fixed e.cost ≡ true → e.cost ≡ some (e.resolved_cost))
      → IsResolved (put_last Context same_context e queue)
  unfolding put_last IsResolved
  put_last-IsResolved e [] v h = (h, tt)
  put_last-IsResolved e (last ∷ []) v h =
      elim (Bool-cases (can_aggregate Context same_context last e)) [
        | inl a ↦
            let (_, f, g) = aggregates-same last e a in
            rw (a) (
              (λ _.
                  plus_cost-fixed last.cost e.cost last.resolved_cost e.resolved_cost f g (v.0 f)
                    (h g)),
              tt,
            )
        | inr a ↦ rw (a) (v.0, (h, tt))
      ]
  put_last-IsResolved e (first ∷ next ∷ queue) v h =
      (v.0, put_last-IsResolved e (next ∷ queue) (v.1) h)

  -- What the requests leave of a context: it is still active and bound to its owner, the costs that
  -- are given are those that were asked for, and so is what each throttle is charged.
  pub record Queued (estimate : ℕ → ℕ) (owner : ℕ) (requests : List (Request Context same_context))
      (q q' : Quota Context same_context) : Type 0 where
    pub same_owner : q'.owner ≡ some owner
    pub not_cancelled : q'.cancelled ≡ false
    pub not_consumed : q'.consumed ≡ false
    pub resolved : IsResolved q'.queue
    pub agree : q'.queued_cost + total q.queue ≡ q.queued_cost + total q'.queue
    pub per_throttle :
        (throttle : ℕ)
        → charged throttle q'.queue
          ≡ charged throttle q.queue + asked_all estimate owner throttle requests

  enqueue-Queued :
      (estimate : ℕ → ℕ) (owner : ℕ) (r : Request Context same_context)
      (q : Quota Context same_context)
      → q.owner ≡ some owner
      → q.cancelled ≡ false
      → q.consumed ≡ false
      → IsResolved q.queue
      → Returns (enqueue Context same_context estimate r q) (Queued estimate owner (r ∷ []) q)
  unfolding enqueue put_request asked_all
  enqueue-Queued estimate owner r q bound live fresh v = elim (Bool-cases (is_zero r.cost)) [
    | inl z ↦ (
      q,
      rw (live, fresh, z) refl,
      record {
        same_owner = bound;
        not_cancelled = live;
        not_consumed = fresh;
        resolved = v;
        agree = refl;
        per_throttle = λ throttle.
            nothing throttle (zero-estimated r.cost (estimate (target r.throttle owner)) z);
      },
    )
    | inr z ↦
        let e = entry_of Context same_context estimate (target r.throttle owner) r in
        (
          record q {
            queue = put_last Context same_context e q.queue;
            queued_cost = q.queued_cost + e.resolved_cost;
          },
          rw (live, fresh, z, bound, target-or_owner r.throttle owner) refl,
          record {
            same_owner = bound;
            not_cancelled = live;
            not_consumed = fresh;
            resolved =
                put_last-IsResolved e q.queue v (given (estimate (target r.throttle owner)) r.cost);
            agree = omega (arith, put_last-total e q.queue);
            per_throttle = λ throttle. omega (arith, put_last-charged throttle e q.queue);
          },
        )
  ]
    where
      given : (n : ℕ) (c : Option ℕ) → is_fixed c ≡ true → c ≡ some (estimated c n)
      given n none f = cc f
      given n (some c) f = refl

      nothing :
          {n m : ℕ} (throttle : ℕ)
          → n ≡ 0
          → m ≡ m + ((if target r.throttle owner == throttle then n else 0) + 0)
      nothing throttle e = ground (arith, e)

  -- Requests to an active context that is bound to a throttle, and whose queue has its given costs
  -- resolved, are all accepted, and however they are
  -- aggregated, every throttle is charged what was asked of it, and the queued cost moves with the
  -- costs of the queue.
  pub enqueue_all-Queued :
      (estimate : ℕ → ℕ) (owner : ℕ) (requests : List (Request Context same_context))
      (q : Quota Context same_context)
      → q.owner ≡ some owner
      → q.cancelled ≡ false
      → q.consumed ≡ false
      → IsResolved q.queue
      → Returns
          (enqueue_all Context same_context estimate requests q)
          (Queued estimate owner requests q)
  unfolding enqueue_all asked_all
  enqueue_all-Queued estimate owner [] q bound live fresh v = (
    q,
    refl,
    record {
      same_owner = bound;
      not_cancelled = live;
      not_consumed = fresh;
      resolved = v;
      agree = refl;
      per_throttle = λ throttle. omega arith;
    },
  )
  enqueue_all-Queued estimate owner (r ∷ requests) q bound live fresh v =
      let (q₁, e, a) = enqueue-Queued estimate owner r q bound live fresh v in
      let (q', e', b) =
        enqueue_all-Queued estimate owner requests q₁ a.same_owner a.not_cancelled a.not_consumed
          a.resolved in
      (
        q',
        rw (e) e',
        record {
          same_owner = b.same_owner;
          not_cancelled = b.not_cancelled;
          not_consumed = b.not_consumed;
          resolved = b.resolved;
          agree = omega (arith, a.agree, b.agree);
          per_throttle =
              λ throttle. omega (arith, a.per_throttle throttle, b.per_throttle throttle);
        },
      )
