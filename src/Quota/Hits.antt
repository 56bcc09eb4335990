-- ===== src/Quota/Hits.antt =====
-- The loop of `apply` over the entries of the queue (src/traffik/quotas.py): which hits it makes, and how
-- it ends.
use traffik.Base.{
  ℕ, zero, suc, ◌+◌, ◌<◌, ◌≡◌, ◌==◌, refl, ap, subst, Bool, true, false, Option, none, some, List,
  [], ◌∷◌, ◌++◌, ◌⊎◌, inl, inr, arith,
}
use traffik.Result.{Error, Result, ok, err}
use traffik.Quota.{
  Entry, Attempt, counted, non_retryable, raised, resolve_in, after_attempt, attempts, Progress,
  hit_done, hit_resolved, hit_all,
}
use traffik.Quota.Queue.{total}

positive : (n : ℕ) → suc n == 0 ≡ false
positive n = ground arith

module _ (Context : Type 0) (same_context : Context → Context → Bool) (W : Type 0)
    (throttle_cost : Entry Context same_context → W → Result ℕ × W)
    (hit : Entry Context same_context → W → Attempt × W) where
  -- An entry, and a part of the queue.
  abbrev Item : Type 0
  Item = Entry Context same_context

  abbrev Items : Type 0
  Items = List Item

  -- An entry with the cost that was resolved for it.
  abbrev fixed : ℕ → Item → Item
  fixed c e = record e { cost = some c; resolved_cost = c }

  -- One of at most `n` hits of the entry is counted, and each before it raised what is retried; the
  -- hits take the world from `w` to `w'`.
  pub data Lands (e : Item) (w' : W) : ℕ → W → Type 0 where
    at_once : (n : ℕ) (w : W) → hit e w ≡ (counted, w') → Lands e w' (suc n) w
    on_retry :
        (n : ℕ) (x : Error) (w w₁ : W)
        → hit e w ≡ (raised x true, w₁)
        → 0 < n
        → Lands e w' n w₁
        → Lands e w' (suc n) w

  -- A hit raises what is not retried, or the last of `n` raises.
  pub data Fails (e : Item) (x : Error) (w' : W) : ℕ → W → Type 0 where
    final : (n : ℕ) (w : W) → hit e w ≡ (non_retryable x, w') → Fails e x w' (suc n) w
    refused : (n : ℕ) (w : W) → hit e w ≡ (raised x false, w') → Fails e x w' (suc n) w
    exhausted :
        (n : ℕ) (w : W) (b : Bool) → n ≡ 0 → hit e w ≡ (raised x b, w') → Fails e x w' (suc n) w
    on_retry :
        (n : ℕ) (y : Error) (w w₁ : W)
        → hit e w ≡ (raised y true, w₁)
        → 0 < n
        → Fails e x w' n w₁
        → Fails e x w' (suc n) w

  abbrev Cases : ℕ → Item → W → Type 0
  Cases n e w =
      ((w' : W) × (attempts Context same_context W throttle_cost hit n e w ≡ (ok tt, w'))
        × Lands e w' n w)
      ⊎ ((x : Error) × (w' : W) × (attempts Context same_context W throttle_cost hit n e w
            ≡ (err x, w'))
          × Fails e x w' n w)

  first_attempt :
      (n : ℕ) (e : Item) (w : W) (h : Attempt × W)
      → hit e w ≡ h
      → ((w₁ : W) → 0 < n → Cases n e w₁)
      → Cases (suc n) e w
  unfolding attempts after_attempt
  first_attempt n e w (counted, w') eq ih = inl (w', rw (eq) refl, Lands.at_once n w eq)
  first_attempt n e w (non_retryable x, w') eq ih = inr (x, w', rw (eq) refl, Fails.final n w eq)
  first_attempt zero e w (raised x b, w') eq ih =
      inr (x, w', rw (eq) refl, Fails.exhausted 0 w b refl eq)
  first_attempt (suc n) e w (raised x false, w') eq ih =
      inr (x, w', rw (eq, positive n) refl, Fails.refused (suc n) w eq)
  first_attempt (suc n) e w (raised x true, w₁) eq ih = elim (ih w₁ (omega arith)) [
    | inl (w', f, lands) ↦
        inl (w', rw (eq, positive n) f, Lands.on_retry (suc n) x w w₁ eq (omega arith) lands)
    | inr (y, w', f, fails) ↦
        inr (y, w', rw (eq, positive n) f, Fails.on_retry (suc n) x w w₁ eq (omega arith) fails)
  ]

  -- The hits of an entry end, with one counted or with an error.
  attempts-Cases : (n : ℕ) (e : Item) (w : W) → Cases (suc n) e w
  attempts-Cases zero e w = first_attempt 0 e w (hit e w) refl (λ w₁ h. elim h [ ])
  attempts-Cases (suc n) e w =
      first_attempt (suc n) e w (hit e w) refl (λ w₁ _. attempts-Cases n e w₁)

  -- What the cost of an entry comes to: the given one, or what the throttle's function answers.
  abbrev pub Resolved : Option ℕ → Item → W → Result ℕ × W → Type 0
  Resolved (some c) e w r = r ≡ (ok c, w)
  Resolved none e w r = r ≡ throttle_cost e w

  -- The entries of a queue are hit in order, from the world `w` to `w'`: each for its resolved cost,
  -- with which it then stands in `after`.
  unfoldable pub Charged : Items → W → Items → W → Type 0
  Charged [] w after w' = (after ≡ []) × (w' ≡ w)
  Charged (e ∷ queue) w after w' =
      (c : ℕ) × (w₁ : W) × (w₂ : W) × (rest : Items) × Resolved e.cost e w (ok c, w₁)
      × Lands (fixed c e) w₂ (e.retry + 1) w₁
      × (after ≡ fixed c e ∷ rest)
      × Charged queue w₂ rest w'

  -- An entry raises: its cost cannot be resolved, or its hits fail; `at'` is what it is then.
  pub data Broke (at : Item) (w : W) (at' : Item) (x : Error) (w' : W) : Type 0 where
    unresolved : Resolved at.cost at w (err x, w') → at' ≡ at → Broke at w at' x w'
    unhit :
        (c : ℕ) (w₁ : W)
        → Resolved at.cost at w (ok c, w₁)
        → at' ≡ fixed c at
        → Fails (fixed c at) x w' (at.retry + 1) w₁
        → Broke at w at' x w'

  -- How a run over the entries ends: all were hit, or one raised, those before it were hit, and those
  -- after it were left alone.
  pub data Ended (queue : Items) (applied : ℕ) (w : W)
      (p : Progress Context same_context W throttle_cost hit) : Type 0 where
    all_hit :
        p.result ≡ ok tt
        → Charged queue w p.entries p.world
        → p.applied ≡ applied + total Context same_context p.entries
        → Ended queue applied w p
    stopped :
        (x : Error) (before : Items) (at : Item) (after before' : Items) (at' : Item) (w₁ : W)
        → queue ≡ before ++ at ∷ after
        → Charged before w before' w₁
        → Broke at w₁ at' x p.world
        → p.result ≡ err x
        → p.entries ≡ before' ++ at' ∷ after
        → p.applied ≡ applied + total Context same_context before'
        → Ended queue applied w p

  Resolved_lem :
      (cost : Option ℕ) (e : Item) (w : W)
      → Resolved cost e w (resolve_in Context same_context W throttle_cost hit cost e w)
  unfolding resolve_in
  Resolved_lem (some c) e w = refl
  Resolved_lem none e w = refl

  hit_done-Ended :
      (c : ℕ) (e : Item) (queue : Items) (applied : ℕ) (w w₁ w₂ : W)
      (rest : ℕ → W → Progress Context same_context W throttle_cost hit)
      → ((n : ℕ) (w : W) → Ended queue n w (rest n w))
      → Resolved e.cost e w (ok c, w₁)
      → Lands (fixed c e) w₂ (e.retry + 1) w₁
      → Ended
          (e ∷ queue)
          applied
          w
          (hit_done Context same_context W throttle_cost hit c e queue applied (ok tt, w₂) rest)
  unfolding hit_done total Charged
  hit_done-Ended c e queue applied w w₁ w₂ rest h r l = elim (h (applied + c) w₂) [
    | all_hit ok_result charged a ↦
        all_hit ok_result (c, w₁, w₂, (rest (applied + c) w₂).entries, r, l, refl, charged)
          (omega (arith, a))
    | stopped x before at after before' at' w₃ q charged broke f s a ↦
        stopped x (e ∷ before) at after (fixed c e ∷ before') at' w₃ (ap (λ l. e ∷ l) q)
          (c, w₁, w₂, before', r, l, refl, charged) broke f (ap (λ l. fixed c e ∷ l) s)
          (omega (arith, a))
  ]

  hit_resolved-Ended :
      (e : Item) (queue : Items) (applied : ℕ) (w : W) (r : Result ℕ × W)
      (rest : ℕ → W → Progress Context same_context W throttle_cost hit)
      → ((n : ℕ) (w : W) → Ended queue n w (rest n w))
      → Resolved e.cost e w r
      → Ended
          (e ∷ queue)
          applied
          w
          (hit_resolved Context same_context W throttle_cost hit e queue applied r rest)
  unfolding hit_resolved hit_done total Charged
  hit_resolved-Ended e queue applied w (err x, w') rest h r =
      stopped x [] e queue [] e w refl (refl, refl) (unresolved r refl) refl refl (omega arith)
  hit_resolved-Ended e queue applied w (ok c, w₁) rest h r =
      elim (subst (λ n. Cases n (fixed c e) w₁) (plus_one e.retry)
        (attempts-Cases e.retry (fixed c e) w₁)) [
          | inl (w₂, f, lands) ↦ rw (f) (hit_done-Ended c e queue applied w w₁ w₂ rest h r lands)
          | inr (x, w₂, f, fails) ↦ rw (f) (
              stopped x [] e queue [] (fixed c e) w refl (refl, refl) (unhit c w₁ r refl fails) refl
                refl (omega arith))
        ]
    where
      plus_one : (n : ℕ) → suc n ≡ n + 1
      plus_one n = omega arith

  pub hit_all-Ended :
      (queue : Items) (applied : ℕ) (w : W)
      → Ended queue applied w (hit_all Context same_context W throttle_cost hit queue applied w)
  unfolding hit_all total Charged
  hit_all-Ended [] applied w = all_hit refl (refl, refl) (omega arith)
  hit_all-Ended (e ∷ queue) applied w =
      hit_resolved-Ended e queue applied w
        (resolve_in Context same_context W throttle_cost hit e.cost e w)
        (hit_all Context same_context W throttle_cost hit queue) (hit_all-Ended queue)
        (Resolved_lem e.cost e w)
