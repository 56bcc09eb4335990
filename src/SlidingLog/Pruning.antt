-- ===== src/SlidingLog/Pruning.antt =====
-- What the sliding window log prunes (src/traffik/strategies/sliding_window.py) is in no later window.
use traffik.Base.{
  ℕ, ◌+◌, ◌≤◌, ◌≡◌, refl, ap, false, List, [], ◌∷◌, ◌++◌, Bool-cases, inl, inr, arith,
}
use traffik.SlidingLog.{Logged, in_window, valid_entries}

-- No entry is later than `t`.
unfoldable pub IsPast : ℕ → List Logged → Type 0
IsPast t [] = Unit {0}
IsPast t (x ∷ log) = (x.timestamp ≤ t) × IsPast t log

pub valid-append :
    (duration t : ℕ) (a b : List Logged)
    → valid_entries duration t (a ++ b) ≡ valid_entries duration t a ++ valid_entries duration t b
unfolding valid_entries
valid-append duration t [] b = refl
valid-append duration t (x ∷ a) b = elim (Bool-cases (in_window duration t x)) [
  | inl e ↦ rw (e) (ap (λ l. x ∷ l) (valid-append duration t a b))
  | inr e ↦ rw (e) (valid-append duration t a b)
]

-- What is pruned is in no later window.
pub valid-valid :
    (duration now t : ℕ) (log : List Logged)
    → now ≤ t
    → valid_entries duration t (valid_entries duration now log) ≡ valid_entries duration t log
unfolding valid_entries
valid-valid duration now t [] le = refl
valid-valid duration now t (x ∷ log) le = elim (Bool-cases (in_window duration now x)) [
  | inl e ↦ rw (e) (elim (Bool-cases (in_window duration t x)) [
    | inl f ↦ rw (f) (ap (λ l. x ∷ l) (valid-valid duration now t log le))
    | inr f ↦ rw (f) (valid-valid duration now t log le)
  ])
  | inr e ↦ rw (e, later x e) (valid-valid duration now t log le)
]
  where
    later : (x : Logged) → in_window duration now x ≡ false → in_window duration t x ≡ false
    later x e = ground (arith, e, le)

-- After the window has passed, no entry is left.
pub valid-none :
    (duration t now : ℕ) (log : List Logged)
    → IsPast t log
    → t + duration ≤ now
    → valid_entries duration now log ≡ []
unfolding valid_entries IsPast
valid-none duration t now [] p le = refl
valid-none duration t now (x ∷ log) p le = rw (gone (p.0)) (valid-none duration t now log (p.1) le)
  where
    gone : x.timestamp ≤ t → in_window duration now x ≡ false
    gone h = ground (arith, h, le)

pub IsPast-later : (t t' : ℕ) (log : List Logged) → t ≤ t' → IsPast t log → IsPast t' log
unfolding IsPast
IsPast-later t t' [] le p = tt
IsPast-later t t' (x ∷ log) le p = (omega (arith, p.0, le), IsPast-later t t' log le (p.1))

pub IsPast-append : (t : ℕ) (a b : List Logged) → IsPast t a → IsPast t b → IsPast t (a ++ b)
unfolding IsPast
IsPast-append t [] b p q = q
IsPast-append t (x ∷ a) b p q = (p.0, IsPast-append t a b (p.1) q)
