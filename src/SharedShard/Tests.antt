-- ===== src/SharedShard/Tests.antt =====
-- Runs of a shard of four slots (src/traffik/backends/multiprocess.py), whose hash is the length of the key.
use traffik.Base.{
  ℕ, ◌+◌, ◌≤◌, ◌≡◌, ◌≢◌, ◌↔◌, refl, sym, ap, subst, Bool, true, false, Option, some, none, List, [],
  ◌∷◌, ◌++◌, length, arith,
}
use traffik.Base.Int.{pos, ◌+ℤ◌}
use traffik.Base.Text.{Str, codes, str_eq, int_of_str}
use traffik.Result.{Result, ok, err, backend_error}
use traffik.SharedTable.{
  lookup, lookup_from, get_slot, upsert, delete, delete_at, occupied_from, iter_occupied, rebuild,
  upsert_all,
}
use traffik.SharedShard.{
  SharedShard, int64, or_zero, bump, write_increment_ttl, write_increment, write_int_slot,
  write_int_value, write_string_slot, current, current_in,
}
use traffik.SharedShard.Calls.{
  take_slot, take_found, pop_slot, put_slot, retrying, after_taking, second_phase, set_key,
  increment, increment_with_ttl, delete_key, delete_found, get,
}
use traffik.SharedShard.Ownership.{Owns, IsShard}
use traffik.SharedShard.Generations.{
  Atomic, takes, removes, writes, apply, apply_all, apply_all-Next, long_key-leaks, generation-Owns,
}
use traffik.SharedShard.Linear.{Outcome, retrying-Outcome, Answer, get-Answer}
use traffik.SharedShard.View.{Seen, IsClear, view}
use traffik.SharedShard.Commands.{text_seen, number_seen, counted, window}
use traffik.SharedShard.Answers.{Shows, set_key-Shows, increment_with_ttl-Shows}
use traffik.SharedShard.Removal.{Gone, Freed, delete_key-Gone}
use traffik.SharedShard.Start.{start_shard, slots_from, start_shard-IsShard}
use traffik.SharedShard.Reap.{
  candidates, sample_and_reap_shard, unlink_all, starts_with, unlink, add_pair,
}
use traffik.SharedShard.Reaped.{Passes, sample_and_reap_shard-Kept}

abbrev hash : Str → ℕ
hash key = length key

abbrev room : 4 + 2 ≤ 8
room = omega arith

abbrev user : Str
user = codes "ns:user"

abbrev other : Str
other = codes "ns:others"

abbrev fresh : SharedShard
fresh = start_shard 4

started :
    IsShard hash 8 2 4 fresh × IsClear fresh × ((t : ℕ) (k : Str) → view hash 8 t k fresh ≡ none)
started = start_shard-IsShard hash 8 2 4 room (omega arith)

start_shard-IsShard_example :
    IsShard hash 8 2 4 (start_shard 4)
    × IsClear (start_shard 4)
    × ((t : ℕ) (k : Str) → view hash 8 t k (start_shard 4) ≡ none)
start_shard-IsShard_example = start_shard-IsShard hash 8 2 4 room (omega arith)

some_free : fresh.free ≢ []
unfolding start_shard slots_from
some_free e = cc e

set_key-Shows_example :
    (s' : SharedShard) × (set_key hash 8 2 3 (λ j s. s) 64 1000 user (codes "5") (some 60) fresh
      ≡ (ok tt, s'))
    × Shows hash 8 2 4 room user (text_seen (codes "5") 61000) fresh s'
set_key-Shows_example =
    set_key-Shows hash 8 2 4 room 3 64 1000 user (codes "5") (some 60) fresh (started.0) (started.1)
      (omega arith) (omega arith) (omega arith) some_free (omega arith)

-- The value that was set is incremented within its window.
abbrev one_key : SharedShard
one_key = (set_key hash 8 2 3 (λ j s. s) 64 1000 user (codes "5") (some 60) fresh).1

one_key-Shows : Shows hash 8 2 4 room user (text_seen (codes "5") 61000) fresh one_key
one_key-Shows =
    let (s', e, shows) =
      set_key-Shows hash 8 2 4 room 3 64 1000 user (codes "5") (some 60) fresh (started.0)
        (started.1) (omega arith) (omega arith) (omega arith) some_free (omega arith) in
    subst (λ s. Shows hash 8 2 4 room user (text_seen (codes "5") 61000) fresh s)
      (ap (λ (r : Result (Unit {0}) × SharedShard). r.1) (sym e)) shows

one_key_free : one_key.free ≢ []
unfolding start_shard slots_from set_key retrying after_taking second_phase take_slot take_found
    pop_slot put_slot get_slot lookup lookup_from upsert
one_key_free e = cc e

one_key-view : view hash 8 2000 user one_key ≡ some (text_seen (codes "5") 61000)
unfolding str_eq
one_key-view = one_key-Shows.shows 2000 user

increment_with_ttl-Shows_example :
    (s' : SharedShard) × (increment_with_ttl hash 8 2 3 (λ j s. s) 2000 user (pos 2) 60 one_key
      ≡ (ok (counted (pos 2) (view hash 8 2000 user one_key)), s'))
    × Shows hash 8 2 4 room user
        (number_seen
          (counted (pos 2) (view hash 8 2000 user one_key))
          (window 62000 (view hash 8 2000 user one_key)))
        one_key
        s'
unfolding ◌+ℤ◌ or_zero int_of_str
increment_with_ttl-Shows_example =
    increment_with_ttl-Shows hash 8 2 4 room 3 2000 user (pos 2) 60 one_key (one_key-Shows.valid)
      (one_key-Shows.clear) (omega arith) small one_key_free (omega arith)
  where
    small : int64 (counted (pos 2) (view hash 8 2000 user one_key)) ≡ true
    small = ap (λ (o : Option Seen). int64 (counted (pos 2) o)) one_key-view

delete_key-Gone_example :
    (b : Bool) × (s' : SharedShard) × (delete_key hash 8 2 user one_key ≡ (ok b, s'))
    × ((b ≡ true) ↔ ((slot : ℕ) × Owns hash 8 2 one_key user slot))
    × Gone hash 8 2 4 room user one_key s'
    × ((slot : ℕ) → Owns hash 8 2 one_key user slot → Freed hash 8 2 4 room slot one_key s')
    × (b ≡ false → s' ≡ one_key)
delete_key-Gone_example =
    delete_key-Gone hash 8 2 4 room user one_key (one_key-Shows.valid) (one_key-Shows.clear)

-- Another process deletes the key before each step of the second pass.
abbrev deleting : ℕ → SharedShard → SharedShard
deleting i s = (delete_key hash 8 2 user s).1

deleting-kept :
    (i : ℕ) (s : SharedShard)
    → IsShard hash 8 2 4 s
    → IsClear s
    → IsShard hash 8 2 4 (deleting i s) × IsClear (deleting i s)
deleting-kept i s v clear =
    let (b, s', e, _, g, _, _) = delete_key-Gone hash 8 2 4 room user s v clear in
    subst (λ (r : Result Bool × SharedShard). IsShard hash 8 2 4 r.1 × IsClear r.1) (sym e)
      (g.valid, g.clear)

-- At 61 seconds the key is expired; all buckets are sampled.
sample_and_reap_shard-Kept_example :
    (n : ℕ) × (s' : SharedShard) × (sample_and_reap_shard hash 8 2 deleting 61000
        (slots_from 8 0)
        one_key
      ≡ (ok ((candidates 61000 (slots_from 8 0) one_key).0, n), s'))
    × (n ≤ length (candidates 61000 (slots_from 8 0) one_key).1)
    × Passes hash 8 2 4 room deleting 61000 0
        (candidates 61000 (slots_from 8 0) one_key).1
        one_key
        s'
        n
sample_and_reap_shard-Kept_example =
    sample_and_reap_shard-Kept hash 8 2 4 room deleting deleting-kept 61000 (slots_from 8 0) one_key
      (one_key-Shows.valid) (one_key-Shows.clear)

-- Another process deletes the key between the phases of every attempt.
abbrev deletions : ℕ → List Atomic
deletions j = removes user ∷ []

retrying-Outcome_example : Outcome hash 8 2 4 room user (write_increment_ttl 1000 (pos 1) 60) (
    retrying hash 8 2
      (λ j. apply_all hash 8 2 (deletions j))
      user
      (write_increment_ttl 1000 (pos 1) 60)
      3
      0
      fresh)
retrying-Outcome_example =
    retrying-Outcome hash 8 2 4 room deletions user (write_increment_ttl 1000 (pos 1) 60) 3 0 fresh
      (started.0) (λ j. omega arith)

abbrev held : SharedShard
held = apply_all hash 8 2 (takes user ∷ []) fresh

user-owns : Owns hash 8 2 held user 0
unfolding apply_all apply start_shard slots_from take_slot take_found pop_slot put_slot get_slot
    lookup lookup_from upsert
user-owns = (7, omega arith, refl)

abbrev meanwhile : List Atomic
meanwhile = takes other ∷ removes other ∷ writes 0 (λ x. x) ∷ []

same_generation : (apply_all hash 8 2 meanwhile held).generations 0 ≡ held.generations 0
unfolding apply_all apply start_shard slots_from take_slot take_found pop_slot put_slot get_slot
    lookup lookup_from upsert delete_key delete_found delete delete_at str_eq
same_generation = refl

-- Other processes use the shard between the two phases of a read.
get-Answer_example :
    Answer hash 8 2 4 room 2000 user one_key
      (apply_all hash 8 2 meanwhile one_key)
      (get hash 8 2 3 (λ j. apply_all hash 8 2 meanwhile) 2000 user one_key)
get-Answer_example =
    get-Answer hash 8 2 4 room meanwhile 3 2000 user one_key (one_key-Shows.valid) (omega arith)

generation-Owns_example : Owns hash 8 2 (apply_all hash 8 2 meanwhile held) user 0
generation-Owns_example =
    generation-Owns hash 8 2 4 room meanwhile held user 0
      (apply_all-Next hash 8 2 4 room (takes user ∷ []) fresh (started.0)).0 user-owns (omega arith)
      same_generation

abbrev ten : Str
ten = codes "0123456789"

abbrev hundred : Str
hundred = ten ++ ten ++ ten ++ ten ++ ten ++ ten ++ ten ++ ten ++ ten ++ ten

abbrev long_key : Str
long_key = hundred ++ hundred ++ ten

long_key-leaks_example :
    take_slot hash 8 2 long_key fresh
    ≡ (err backend_error, bump 0 (record fresh { free = 1 ∷ 2 ∷ 3 ∷ [] }))
unfolding start_shard slots_from
long_key-leaks_example =
    long_key-leaks hash 8 2 4 room long_key 0 (1 ∷ 2 ∷ 3 ∷ []) fresh (started.0) (omega arith) refl

-- `_clear` frees the slots of the keys before it clears them: another process that increments a new
-- key between the two phases takes such a slot, and starts from the count of the key that was cleared.
abbrev unlinked : SharedShard
unlinked = (unlink_all hash 8 2 (codes "ns:") (iter_occupied hash 8 one_key.table) one_key).1

clear-stale : (increment hash 8 2 3 (λ j s. s) 2000 other (pos 1) unlinked).0 ≡ ok (pos 6)
unfolding start_shard slots_from set_key retrying after_taking second_phase take_slot take_found
    pop_slot put_slot get_slot lookup lookup_from upsert delete delete_at str_eq unlink_all
    starts_with unlink add_pair occupied_from increment write_increment write_int_slot
    write_int_value current current_in ◌+ℤ◌ or_zero int_of_str write_string_slot rebuild upsert_all
clear-stale = refl
