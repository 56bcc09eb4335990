-- ===== src/InMemory/Tests.antt =====
-- Runs of the in-memory backend (src/traffik/backends/inmemory.py), and its theorems at them.
use traffik.Base.{ℕ, ◌≡◌, ◌≢◌, ◌↔◌, refl, true, false, none, some, List, [], ◌∷◌, map, length}
use traffik.Base.Int.{ℤ, pos, ◌+ℤ◌}
use traffik.Base.Text.{Str, codes, str_eq, int_of_str}
use traffik.Base.Dict.{lookup, insert}
use traffik.Result.{Result, ok, err, Returns}
use traffik.Shard
use traffik.Shard.{text, number, deadline, as_int, shown}
use traffik.Shard.View.{shown_entry, counted, count_of, incremented_ttl, rescheduled}
use traffik.InMemory.{
  Backend, new, initialize, set_key, increment, expire, increment_with_ttl, multi_get, multi_set,
  with_shard, at_shard, collect, read_keys, write_items, on_shard, shard_indexes, multi_get_shards,
  multi_set_shards, insert_sorted,
}
use traffik.InMemory.Views.{IsValid, view}
use traffik.InMemory.Methods.{
  Updated, Unchanged, set_key_lem, increment_with_ttl_lem, expire_lem, stored,
}
use traffik.InMemory.MultiGet.{multi_get_lem}
use traffik.InMemory.MultiSet.{multi_set_lem, assigned, override}
use traffik.InMemory.Lifecycle.{initialize-IsValid}

abbrev hash : Str → ℤ
hash s = pos (length s)

abbrev bare : Backend
bare = record { number_of_shards = 3; shards = []; initialized = false }

abbrev start : Backend
start = initialize bare

start-IsValid : IsValid start
unfolding new
start-IsValid = (initialize-IsValid hash 3 bare refl).0

abbrev key : Str
key = codes "user"

abbrev items : List (Str × Str)
items = (codes "a", codes "1") ∷ (codes "bb", codes "2") ∷ (codes "dddd", codes "3") ∷ []

abbrev after {ℓ} : {A : Type ℓ} → Result (A × Backend) → Backend
after (ok (_, b)) = b
after (err _) = bare

-- A batch, read back by another batch in another order; one key lies on the shard of "a".
batch :
    multi_get hash 5
      (codes "dddd" ∷ codes "x" ∷ codes "a" ∷ [])
      (after (multi_set hash 0 items (some 1) start))
    ≡ ok (
      some (codes "3") ∷ none ∷ some (codes "1") ∷ [],
      after (multi_set hash 0 items (some 1) start),
    )
unfolding initialize multi_get multi_set at_shard collect read_keys write_items on_shard
    shard_indexes multi_get_shards multi_set_shards insert_sorted Shard.get Shard.store lookup
    insert str_eq shown
batch = refl

-- A counter on a text, until its deadline.
counting :
    increment hash 900 key (pos 2) (after (set_key hash 0 key (codes " 40 ") (some 1) start))
    ≡ ok (
      pos 42,
      after (
          increment hash 900 key
            (pos 2)
            (after (set_key hash 0 key (codes " 40 ") (some 1) start))),
    )
unfolding initialize increment set_key with_shard at_shard Shard.increment Shard.store
    Shard.overwrite lookup insert str_eq as_int int_of_str ◌+ℤ◌
counting = refl

-- One entry, which has expired at the time of the examples and is still stored.
abbrev used : Backend
used = after (set_key hash 0 key (codes "9") (some 1) start)

used-IsValid : IsValid used
used-IsValid =
    let (r, e, u) = set_key_lem hash 0 key start start-IsValid (codes "9") (some 1) in rw e u.valid

increment_with_ttl_lem_example : Returns (increment_with_ttl hash 1007 key (pos 5) 60 used) (λ r.
    (r.0 ≡ counted (pos 5) (count_of (view hash 1007 key used)))
    × Updated hash 1007 key
        (some (incremented_ttl 1007 (pos 5) 60 (view hash 1007 key used)))
        used
        r.1)
increment_with_ttl_lem_example = increment_with_ttl_lem hash 1007 key used used-IsValid (pos 5) 60

multi_get_lem_example : Returns (multi_get hash 1007 (key ∷ codes "a" ∷ []) used) (λ r.
    (r.0 ≡ map (λ k. shown_entry (view hash 1007 k used)) (key ∷ codes "a" ∷ []))
    × Unchanged hash 1007 used r.1)
multi_get_lem_example = multi_get_lem hash 1007 (key ∷ codes "a" ∷ []) used used-IsValid

multi_set_lem_example : Returns (multi_set hash 1007 items (some 1) used) (λ r.
    IsValid r.1
    × ((t : ℕ) (j : Str)
        → view hash t j r.1 ≡ override t (some 2007) (assigned j items) (view hash t j used)))
multi_set_lem_example = multi_set_lem hash 1007 items (some 1) used used-IsValid

expire_lem_example : Returns (expire hash 1007 key 60 used) (λ r.
    ((r.0 ≡ true) ↔ (stored hash key used ≢ none))
    × Updated hash 1007 key (rescheduled 1007 60 (stored hash key used)) used r.1)
expire_lem_example = expire_lem hash 1007 key 60 used used-IsValid
