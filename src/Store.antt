-- ===== src/Store.antt =====
-- What a strategy asks of its backend: the part of `ThrottleBackend` (src/traffik/backends/base.py)
-- that the strategies call, with the laws that an implementation proves. `view now key s` is the
-- entry that `key` stands for at the time `now` of the backend's clock.
use traffik.Base.{ℕ, ◌≤◌, ◌≡◌, Option, some, List, map, ◌++◌, if◌then◌else◌}
use traffik.Base.Int.{ℤ}
use traffik.Base.Text.{Str, str_eq, codes}
use traffik.Result.{Result, Returns}
use traffik.Shard.{Entry, deadline}
use traffik.Shard.View.{live, shown_entry, counted, count_of, incremented_ttl}
use traffik.InMemory.MultiSet.{assigned, override}

pub record Store : Type 1 where
  pub State : Type 0
  pub IsValid : State → Type 0
  pub view : ℕ → Str → State → Option Entry
  pub get : ℕ → Str → State → Result (Option Str × State)
  pub increment_with_ttl : ℕ → Str → ℤ → ℕ → State → Result (ℤ × State)
  pub multi_set : ℕ → List (Str × Str) → Option ℕ → State → Result (Unit {0} × State)
  pub multi_get : ℕ → List Str → State → Result (List (Option Str) × State)
  -- An entry is seen until its deadline and never again.
  pub view_later :
      (now t : ℕ) (key : Str) (s : State) → now ≤ t → view t key s ≡ live t (view now key s)
  pub get_lem :
      (now : ℕ) (key : Str) (s : State)
      → IsValid s
      → Returns (get now key s) (λ r.
        (r.0 ≡ shown_entry (view now key s))
        × IsValid r.1
        × ((t : ℕ) (j : Str) → now ≤ t → view t j r.1 ≡ view t j s))
  pub increment_with_ttl_lem :
      (now : ℕ) (key : Str) (amount : ℤ) (ttl : ℕ) (s : State)
      → IsValid s
      → Returns (increment_with_ttl now key amount ttl s) (λ r.
        (r.0 ≡ counted amount (count_of (view now key s)))
        × IsValid r.1
        × ((t : ℕ) (j : Str)
            → now ≤ t
            → view t j r.1 ≡ (
                if str_eq key j
                then live t (some (incremented_ttl now amount ttl (view now key s)))
                else view t j s)))
  pub multi_set_lem :
      (now : ℕ) (items : List (Str × Str)) (ttl : Option ℕ) (s : State)
      → IsValid s
      → Returns (multi_set now items ttl s) (λ r.
        IsValid r.1
        × ((t : ℕ) (j : Str)
            → view t j r.1 ≡ override t (deadline now ttl) (assigned j items) (view t j s)))
  pub multi_get_lem :
      (now : ℕ) (keys : List Str) (s : State)
      → IsValid s
      → Returns (multi_get now keys s) (λ r.
        (r.0 ≡ map (λ k. shown_entry (view now k s)) keys)
        × IsValid r.1
        × ((t : ℕ) (j : Str) → now ≤ t → view t j r.1 ≡ view t j s))

-- `get_key` with no further arguments.
unfoldable pub get_key : Str → Str → Str
get_key namespace key = namespace ++ codes ":" ++ key
