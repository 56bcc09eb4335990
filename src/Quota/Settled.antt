-- ===== src/Quota/Settled.antt =====
-- The entries of a queue whose costs are given (src/traffik/quotas.py): a run leaves them as they are.
use traffik.Base.{ℕ, ◌≡◌, sym, ap, ◌∙◌, subst, Bool, Option, some, List, [], ◌∷◌, ◌++◌}
use traffik.Result.{Error, Result, ok, err}
use traffik.Quota.{Entry, Attempt, fix_cost}
use traffik.Quota.Hits.{Resolved, Charged, Broke, unresolved, unhit}

ok-neq_err : {A : Type 0} (a : A) (x : Error) → ok a ≡ err x → ⊥
ok-neq_err a x e = cc e

same_cost : {W : Type 0} (a b : ℕ) (v w : W) → ◌≡◌ {A = Result ℕ × W} (ok a, v) (ok b, w) → a ≡ b
same_cost a b v w e = cc e

module _ (Context : Type 0) (same_context : Context → Context → Bool) (W : Type 0)
    (throttle_cost : Entry Context same_context → W → Result ℕ × W)
    (hit : Entry Context same_context → W → Attempt × W) where
  abbrev Item : Type 0
  Item = Entry Context same_context

  abbrev Items : Type 0
  Items = List Item

  -- The entry has a cost, and it is the resolved one.
  abbrev pub HasCost : Item → Type 0
  HasCost e = e.cost ≡ some (e.resolved_cost)

  -- So has every entry.
  unfoldable pub IsSettled : Items → Type 0
  IsSettled [] = Unit {0}
  IsSettled (e ∷ queue) = HasCost e × IsSettled queue

  pub IsSettled-before : (before after : Items) → IsSettled (before ++ after) → IsSettled before
  unfolding IsSettled
  IsSettled-before [] after v = tt
  IsSettled-before (e ∷ before) after v = (v.0, IsSettled-before before after (v.1))

  pub IsSettled-at :
      (before : Items) (at : Item) (after : Items) → IsSettled (before ++ at ∷ after) → HasCost at
  unfolding IsSettled
  IsSettled-at [] at after v = v.0
  IsSettled-at (e ∷ before) at after v = IsSettled-at before at after (v.1)

  -- To fix the cost that an entry has changes nothing.
  fix_cost-settled :
      (c : ℕ) (e : Item) (w w₁ : W)
      → HasCost e
      → Resolved Context same_context W throttle_cost hit e.cost e w (ok c, w₁)
      → fix_cost Context same_context W throttle_cost hit c e ≡ e
  fix_cost-settled c e w w₁ h r =
      let cost : c ≡ e.resolved_cost = same_cost c e.resolved_cost w₁ w (
        subst (λ (o : Option ℕ). Resolved Context same_context W throttle_cost hit o e w (ok c, w₁))
          h r) in
      ap (λ (n : ℕ). fix_cost Context same_context W throttle_cost hit n e) cost
      ∙ ap (λ (o : Option ℕ). entry_with o) (sym h)
    where
      entry_with : Option ℕ → Item
      entry_with o = record e { cost = o }

  pub Charged-settled :
      (queue after : Items) (w w' : W)
      → IsSettled queue
      → Charged Context same_context W throttle_cost hit queue w after w'
      → after ≡ queue
  unfolding IsSettled Charged
  Charged-settled [] after w w' v charged = charged.0
  Charged-settled (e ∷ queue) after w w' v (c, w₁, w₂, rest, r, _, at, charged) =
      at
      ∙ ap (λ (x : Item). x ∷ rest) (fix_cost-settled c e w w₁ (v.0) r)
      ∙ ap (λ (l : Items). e ∷ l) (Charged-settled queue rest w₂ w' (v.1) charged)

  pub Broke-settled :
      (at : Item) (w : W) (at' : Item) (x : Error) (w' : W)
      → HasCost at
      → Broke Context same_context W throttle_cost hit at w at' x w'
      → at' ≡ at
  Broke-settled at w at' x w' h (unresolved r same) = same
  Broke-settled at w at' x w' h (unhit c w₁ r same _) = same ∙ fix_cost-settled c at w w₁ h r
