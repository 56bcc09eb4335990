-- ===== src/Quota/Apply.antt =====
-- The application of the queue (src/traffik/quotas.py): which entries are hit, which costs are applied,
-- and what is left, also where a hit raises.
use traffik.Base.{
  ℕ, ◌+◌, ◌≡◌, refl, sym, ap, ◌∙◌, subst, Bool, true, false, List, [], ◌∷◌, ◌++◌, append-nil,
  append_assoc, if◌then◌else◌, Bool-cases, inl, inr, arith,
}
use traffik.Result.{Error, Result, ok, err}
use traffik.Quota.{
  Entry, Quota, Attempt, consumed_after, merge_all, merge_into, hit_all, finish, apply_in, apply,
}
use traffik.Quota.Queue.{total}
use traffik.Quota.Hits.{Charged, Broke, all_hit, stopped, hit_all-Ended}
use traffik.Quota.Settled.{
  IsSettled, IsSettled-before, IsSettled-at, Charged-settled, Broke-settled,
}

ok-neq_err : {A : Type 0} (a : A) (e : Error) → ok a ≡ err e → ⊥
ok-neq_err a e x = cc x

same_error : {A : Type 0} (a b : Error) → ◌≡◌ {A = Result A} (err a) (err b) → a ≡ b
same_error a b e = cc e

module _ (Context : Type 0) (same_context : Context → Context → Bool) (W : Type 0)
    (throttle_cost : Entry Context same_context → W → Result ℕ × W)
    (hit : Entry Context same_context → W → Attempt × W) where
  abbrev Item : Type 0
  Item = Entry Context same_context

  abbrev Items : Type 0
  Items = List Item

  abbrev ThisQuota : Type 0
  ThisQuota = Quota Context same_context

  abbrev applying : List ThisQuota → ThisQuota → W → Result (Unit {0}) × ThisQuota × W
  applying children q w = apply Context same_context W throttle_cost hit children q w

  -- The queues of the children that are not consumed.
  unfoldable pub pending : List ThisQuota → Items
  pending [] = []
  pending (child ∷ children) = (if child.consumed then [] else child.queue) ++ pending children

  merge_all-same :
      (children : List ThisQuota) (q : ThisQuota)
      → ((merge_all Context same_context children q).applied_cost ≡ q.applied_cost)
        × ((merge_all Context same_context children q).consumed ≡ q.consumed)
        × ((merge_all Context same_context children q).cancelled ≡ q.cancelled)
        × ((merge_all Context same_context children q).queue ≡ q.queue ++ pending children)
  unfolding merge_all merge_into pending
  merge_all-same [] q = (refl, refl, refl, sym (append-nil q.queue))
  merge_all-same (child ∷ children) q = elim (Bool-cases child.consumed) [
    | inl e ↦ rw (e) (merge_all-same children q)
    | inr e ↦
        let (a, b, c, d) = merge_all-same children (merge_into Context same_context child q) in
        rw (e) (a, b, c, d ∙ append_assoc q.queue child.queue (pending children))
  ]

  -- What `apply` leaves of an active context and the world. Either every entry of its queue and of the
  -- children's was hit, in order; these entries are its queue, with the costs that were resolved, the
  -- sum of these is applied, and it is consumed. Or an entry raised: those before it were hit, and
  -- their costs are applied; those after it are as they were; and the context is still active.
  pub data Applied (children : List ThisQuota) (q : ThisQuota) (w : W)
      (a : Result (Unit {0}) × ThisQuota × W) : Type 0 where
    completed :
        a.0 ≡ ok tt
        → Charged Context same_context W throttle_cost hit
            (q.queue ++ pending children)
            w
            a.1.queue
            a.2
        → a.1.consumed ≡ true
        → a.1.applied_cost ≡ q.applied_cost + total Context same_context a.1.queue
        → Applied children q w a
    interrupted :
        (x : Error) (before : Items) (at : Item) (after before' : Items) (at' : Item) (w₁ : W)
        → a.0 ≡ err x
        → q.queue ++ pending children ≡ before ++ at ∷ after
        → Charged Context same_context W throttle_cost hit before w before' w₁
        → Broke Context same_context W throttle_cost hit at w₁ at' x a.2
        → a.1.consumed ≡ false
        → a.1.cancelled ≡ false
        → a.1.queue ≡ before' ++ at' ∷ after
        → a.1.applied_cost ≡ q.applied_cost + total Context same_context before'
        → Applied children q w a

  apply-active :
      (children : List ThisQuota) (q : ThisQuota) (w : W)
      → q.cancelled ≡ false
      → q.consumed ≡ false
      → applying children q w
        ≡ apply_in Context same_context W throttle_cost hit false false children q w
  unfolding apply
  apply-active children q w live fresh =
      ap (λ b. apply_in Context same_context W throttle_cost hit b q.consumed children q w) live
      ∙ ap (λ b. apply_in Context same_context W throttle_cost hit false b children q w) fresh

  -- To apply an active context either hits every entry, of its own queue and then of those of the
  -- children that are not consumed, in this order and each until a hit of at most one more than its
  -- retries is counted, applies the sum of their resolved costs and consumes the context; or it raises
  -- what the first entry raised whose cost could not be resolved or whose hits failed, with the costs
  -- of the entries before it applied, those after it untouched, and the context still active.
  pub apply-Applied :
      (children : List ThisQuota) (q : ThisQuota) (w : W)
      → q.cancelled ≡ false
      → q.consumed ≡ false
      → Applied children q w (apply Context same_context W throttle_cost hit children q w)
  unfolding apply_in finish
  apply-Applied children q w live fresh =
      let merged = merge_all Context same_context children q in
      let p = hit_all Context same_context W throttle_cost hit merged.queue merged.applied_cost w in
      let (applied, consumed, cancelled, queue) = merge_all-same children q in
      subst (Applied children q w) (sym (apply-active children q w live fresh))
        (elim (hit_all-Ended Context same_context W throttle_cost hit merged.queue
          merged.applied_cost w) [
            | all_hit r charged a ↦
                completed r
                  (subst
                    (λ (l : Items).
                      Charged Context same_context W throttle_cost hit l w p.entries p.world)
                    queue charged)
                  (ap (λ x. consumed_after x merged.consumed) r) (omega (arith, a, applied))
            | stopped x before at after before' at' w₁ split charged broke r s a ↦
                interrupted x before at after before' at' w₁ r (sym queue ∙ split) charged broke
                  (ap (λ x. consumed_after x merged.consumed) r ∙ consumed ∙ fresh)
                  (cancelled ∙ live) s (omega (arith, a, applied))
          ])

  -- The course of two calls of `apply` on a queue of given costs, the first of which raised.
  pub record ChargedTwice (queue : Items) (applied : ℕ) (x : Error) (w w' : W)
      (first second : Result (Unit {0}) × ThisQuota × W) : Type 0 where
    pub before : Items
    pub at : Item
    pub after : Items
    pub between : W
    pub split : queue ≡ before ++ at ∷ after
    -- In the first call the entries before the one that raised were hit,
    pub charged : Charged Context same_context W throttle_cost hit before w before between
    pub raised : Broke Context same_context W throttle_cost hit at between at x first.2
    -- and in the second call the whole queue.
    pub charged_again : Charged Context same_context W throttle_cost hit queue w' queue second.2
    pub twice :
        second.1.applied_cost
        ≡ applied + total Context same_context before + total Context same_context queue

  -- If an `apply` of given costs raises and a later one completes, the later one hits the whole queue
  -- again: the entries before the one that raised, which were hit and charged in the first call, are
  -- charged twice, and the applied cost grows by theirs and by that of the whole queue.
  pub apply-twice :
      (children : List ThisQuota) (q : ThisQuota) (w w' : W) (x : Error)
      → q.cancelled ≡ false
      → q.consumed ≡ false
      → IsSettled Context same_context W throttle_cost hit (q.queue ++ pending children)
      → (apply Context same_context W throttle_cost hit children q w).0 ≡ err x
      → (apply Context same_context W throttle_cost hit []
          (apply Context same_context W throttle_cost hit children q w).1
          w').0
        ≡ ok tt
      → ChargedTwice
          (q.queue ++ pending children)
          q.applied_cost
          x
          w
          w'
          (apply Context same_context W throttle_cost hit children q w)
          (apply Context same_context W throttle_cost hit []
            (apply Context same_context W throttle_cost hit children q w).1
            w')
  unfolding pending
  apply-twice children q w w' x live fresh v failed done =
      let first = applying children q w in
      let whole = q.queue ++ pending children in
      elim (apply-Applied children q w live fresh) [
        | completed r _ _ _ ↦ elim (ok-neq_err tt x (sym r ∙ failed)) [ ]
        | interrupted y before at after before' at' w₁ r split charged broke consumed cancelled s
              a ↦
            let v' = subst (IsSettled Context same_context W throttle_cost hit) split v in
            let same =
              Charged-settled Context same_context W throttle_cost hit before before' w w₁
                (IsSettled-before Context same_context W throttle_cost hit before (at ∷ after) v')
                charged in
            let same_at =
              Broke-settled Context same_context W throttle_cost hit at w₁ at' y first.2
                (IsSettled-at Context same_context W throttle_cost hit before at after v') broke in
            let left : first.1.queue ++ [] ≡ whole =
              append-nil first.1.queue
              ∙ s
              ∙ ap (λ (l : Items). l ++ at' ∷ after) same
              ∙ ap (λ (e : Item). before ++ e ∷ after) same_at
              ∙ sym split in
            elim (apply-Applied [] first.1 w' cancelled consumed) [
              | completed _ again _ a' ↦
                  let second = applying [] first.1 w' in
                  let again' =
                    subst
                      (λ (l : Items).
                        Charged Context same_context W throttle_cost hit l w' second.1.queue
                          second.2)
                      left again in
                  let kept =
                    Charged-settled Context same_context W throttle_cost hit whole second.1.queue w'
                      second.2 v again' in
                  record {
                    before = before;
                    at = at;
                    after = after;
                    between = w₁;
                    split = split;
                    charged =
                        subst
                          (λ (l : Items).
                            Charged Context same_context W throttle_cost hit before w l w₁)
                          same charged;
                    raised =
                        subst
                          (λ (y : Error).
                            Broke Context same_context W throttle_cost hit at w₁ at y first.2)
                          (same_error y x (sym r ∙ failed))
                          (subst
                            (λ (e : Item).
                              Broke Context same_context W throttle_cost hit at w₁ e y first.2)
                            same_at broke);
                    charged_again =
                        subst
                          (λ (l : Items).
                            Charged Context same_context W throttle_cost hit whole w' l second.2)
                          kept again';
                    twice = omega (
                      arith,
                      a',
                      a,
                      ap (total Context same_context) same,
                      ap (total Context same_context) kept,
                    );
                  }
              | interrupted y' _ _ _ _ _ _ r' _ _ _ _ _ _ _ ↦
                  elim (ok-neq_err tt y' (sym done ∙ r')) [ ]
            ]
      ]
