-- ===== src/Cleanup.antt =====
-- The periodic clean-up of a shard: `_sample_and_reap_shard` of src/traffik/backends/inmemory.py, and
-- `adaptive_expire_sample` of src/traffik/_utils.py, which repeats it. `random.sample` and the clock
-- are inputs, by the number of the round.
pub mod Unseen
pub mod Tests
use traffik.Base.{
  ℕ, zero, suc, ◌+◌, ◌*◌, Bool, true, false, ◌||◌, Option, none, some, List, [], ◌∷◌, length,
  get_elem?, min, ltb, ◌==◌, if◌then◌else◌,
}
use traffik.Base.Text.{Str}
use traffik.Base.Dict.{lookup}
use traffik.Result.{Result, ok, err, index_error, ◌>>=◌}
use traffik.Shard.{Shard, Entry, expired, drop_key}

abbrev or_index_error : Option Str → Result Str
or_index_error none = err index_error
or_index_error (some k) = ok k

-- `[key_list[position] for position in ...]`
unfoldable pub keys_at : List ℕ → List Str → Result (List Str)
keys_at [] key_list = ok []
keys_at (position ∷ positions) key_list = do
  key ← or_index_error (get_elem? key_list position)
  keys ← keys_at positions key_list
  ok (key ∷ keys)

-- One sampled key: how many are freed, and the shard.
unfoldable pub reap_entry : ℕ → Str → Option Entry → ℕ → Shard → ℕ × Shard
reap_entry now key none freed s = (freed, s)
reap_entry now key (some (_, expires_at)) freed s =
    if expired now expires_at then (freed + 1, drop_key key s) else (freed, s)

-- The loop over the sampled keys.
unfoldable pub reap : ℕ → List Str → ℕ → Shard → ℕ × Shard
unfolding reap_entry
reap now [] freed s = (freed, s)
reap now (key ∷ keys) freed s =
    let (freed', s') = reap_entry now key (lookup key s.items) freed s in reap now keys freed' s'

module _ (sample : ℕ → ℕ → ℕ → List ℕ) (clock : ℕ → ℕ) (sample_size : ℕ) where
  unfoldable pub sample_keys : ℕ → List Str → Shard → Result ((ℕ × ℕ) × Shard)
  sample_keys i [] s = ok ((0, 0), s)
  sample_keys i (k ∷ key_list) s = do
    keys ←
        keys_at (sample i (length (k ∷ key_list)) (min sample_size (length (k ∷ key_list))))
          (k ∷ key_list)
    let (freed, s') = reap (clock i) keys 0 s
    ok ((length keys, freed), s')

  -- `_sample_and_reap_shard`, as the round of number `i`: how many keys were checked and freed.
  unfoldable pub sample_and_reap_shard : ℕ → Shard → Result ((ℕ × ℕ) × Shard)
  unfolding sample_keys
  sample_and_reap_shard i s = sample_keys i s.key_list s

-- `adaptive_expire_sample`: the rounds from number `i`, of which `n` may be left, with a threshold in
-- fourths.
unfoldable pub adaptive_from :
    (ℕ → Shard → Result ((ℕ × ℕ) × Shard)) → ℕ → ℕ → ℕ → ℕ → Shard → Result (ℕ × Shard)
adaptive_from sample_round threshold zero i total_freed s = ok (total_freed, s)
adaptive_from sample_round threshold (suc n) i total_freed s = do
  ((checked, freed), s') ← sample_round i s
  let rest = adaptive_from sample_round threshold n (i + 1) (total_freed + freed) s'
  (if checked == 0 || ltb (4 * freed) (threshold * checked)
      then ok (total_freed + freed, s')
      else rest)

abbrev pub adaptive_expire_sample :
    (ℕ → Shard → Result ((ℕ × ℕ) × Shard)) → ℕ → ℕ → Shard → Result (ℕ × Shard)
adaptive_expire_sample sample_round threshold max_rounds s =
    adaptive_from sample_round threshold max_rounds 0 0 s

-- The body of the loop of `_cleanup`, for the sampling of one shard, with the default threshold of a
-- quarter and at most five rounds.
unfoldable pub cleanup_shard : (ℕ → ℕ → ℕ → List ℕ) → (ℕ → ℕ) → ℕ → Shard → Result (ℕ × Shard)
unfolding adaptive_from
cleanup_shard sample clock cleanup_sample_size s =
    adaptive_expire_sample (sample_and_reap_shard sample clock cleanup_sample_size) 1 5 s
