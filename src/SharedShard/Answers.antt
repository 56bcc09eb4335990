-- ===== src/SharedShard/Answers.antt =====
-- `_set`, `_increment` and `_increment_with_ttl` (src/traffik/backends/multiprocess.py) with no
-- other process about: what they answer, and what the shard shows after them.
use traffik.Base.{
  ℕ, ◌+◌, ◌*◌, ◌^◌, ◌≤◌, ◌<◌, ◌≡◌, ◌≢◌, ap, ◌∙◌, subst, true, Option, [], length, if◌then◌else◌,
}
use traffik.Base.Int.{ℤ}
use traffik.Base.Text.{Str, str_eq}
use traffik.Result.{Result, ok}
use traffik.SharedTable.{key_max_bytes}
use traffik.SharedShard.{
  Slot, SharedShard, deadline, int64, second, write_string_slot, write_increment,
  write_increment_ttl,
}
use traffik.SharedShard.Calls.{set_key, increment, increment_with_ttl}
use traffik.SharedShard.Ownership.{IsShard}
use traffik.SharedShard.View.{Seen, visible, IsClear, view}
use traffik.SharedShard.Alone.{Written, write-alone}
use traffik.SharedShard.Commands.{
  until, text_seen, number_seen, counted, kept_expiry, window, string-visible, increment-visible,
  increment_ttl-visible,
}

abbrev leaving : {A : Type 0} → SharedShard → Result A → Result A × SharedShard
leaving s r = (r, s)

module _ (hash : Str → ℕ) (capacity rebuild_threshold max_keys : ℕ)
    (fits : max_keys + rebuild_threshold ≤ capacity) where
  -- What a call leaves: a well-formed shard whose free slots are cleared, and which shows `e` for the
  -- key until it expires, and for every other key what it showed before.
  pub record Shows (key : Str) (e : Seen) (s s' : SharedShard) : Type 0 where
    pub valid : IsShard hash capacity rebuild_threshold max_keys s'
    pub clear : IsClear s'
    pub shows :
        (t : ℕ) (k : Str)
        → view hash capacity t k s' ≡ (if str_eq key k then until t e else view hash capacity t k s)

  Written-Shows :
      (key : Str) (e : Seen) (x : Slot) (s s' : SharedShard)
      → Written hash capacity rebuild_threshold max_keys fits key x s s'
      → ((t : ℕ) → visible t x ≡ until t e)
      → Shows key e s s'
  Written-Shows key e x s s' w h = record {
    valid = w.valid;
    clear = w.clear;
    shows = λ t k.
        w.shows t k
        ∙ ap (λ (o : Option Seen). if str_eq key k then o else view hash capacity t k s) (h t);
  }

  -- `_set` of a short key and a value that fits, of less than 2 ^ 16 bytes, in a shard with a free slot and with no other process
  -- about, succeeds at the first attempt: the key then stands for the value until its deadline, and
  -- every other key for what it stood for.
  pub set_key-Shows :
      (retries max_value_size now : ℕ) (key value : Str) (expire : Option ℕ) (s : SharedShard)
      → IsShard hash capacity rebuild_threshold max_keys s
      → IsClear s
      → length key ≤ key_max_bytes
      → length value ≤ max_value_size
      → length value < 2 ^ 16
      → s.free ≢ []
      → 0 < retries
      → (s' : SharedShard) × (set_key hash capacity rebuild_threshold retries
            (λ j s. s)
            max_value_size
            now
            key
            value
            expire
            s
          ≡ (ok tt, s'))
        × Shows key (text_seen value (deadline now expire)) s s'
  unfolding set_key
  set_key-Shows retries max_value_size now key value expire s v clear short small packed room
        positive =
      let write = write_string_slot max_value_size value (deadline now expire) in
      let (x, s', _, e, w) =
        write-alone hash capacity rebuild_threshold max_keys fits write retries key s v clear short
          room positive in
      let (answer, h) = string-visible max_value_size value (deadline now expire) x small packed in
      (
        s',
        e ∙ ap (λ (a : Result (Unit {0})). leaving s' a) answer,
        Written-Shows key _ (write x).1 s s' w h,
      )

  -- `_increment_with_ttl` of a short key, in a shard with a free slot and with no other process about,
  -- returns the count of the key's window plus the amount, if that is a 64-bit number. The key then
  -- stands for that count until the end of its window, which starts anew if the key had expired or had
  -- no expiry; every other key stands for what it stood for.
  pub increment_with_ttl-Shows :
      (retries now : ℕ) (key : Str) (amount : ℤ) (ttl : ℕ) (s : SharedShard)
      → IsShard hash capacity rebuild_threshold max_keys s
      → IsClear s
      → length key ≤ key_max_bytes
      → int64 (counted amount (view hash capacity now key s)) ≡ true
      → s.free ≢ []
      → 0 < retries
      → (s' : SharedShard) × (increment_with_ttl hash capacity rebuild_threshold retries
            (λ j s. s)
            now
            key
            amount
            ttl
            s
          ≡ (ok (counted amount (view hash capacity now key s)), s'))
        × Shows key
            (number_seen
              (counted amount (view hash capacity now key s))
              (window (now + second * ttl) (view hash capacity now key s)))
            s
            s'
  unfolding increment_with_ttl
  increment_with_ttl-Shows retries now key amount ttl s v clear short small room positive =
      let write = write_increment_ttl now amount ttl in
      let (x, s', was, e, w) =
        write-alone hash capacity rebuild_threshold max_keys fits write retries key s v clear short
          room positive in
      let (answer, h) =
        increment_ttl-visible now amount ttl x
          (ap (λ (o : Option Seen). int64 (counted amount o)) (was now) ∙ small) in
      (
        s',
        e
            ∙ ap (λ (a : Result ℤ). leaving s' a)
                (answer ∙ ap (λ (o : Option Seen). ok (counted amount o)) (was now)),
        subst
            (λ (o : Option Seen).
              Shows key (number_seen (counted amount o) (window (now + second * ttl) o)) s s')
            (was now) (Written-Shows key _ (write x).1 s s' w h),
      )

  -- `_increment` of a short key, in a shard with a free slot and with no other process about, returns
  -- the key's count plus the amount, if that is a 64-bit number. The key then stands for that count
  -- with the expiry that it had; every other key stands for what it stood for.
  pub increment-Shows :
      (retries now : ℕ) (key : Str) (amount : ℤ) (s : SharedShard)
      → IsShard hash capacity rebuild_threshold max_keys s
      → IsClear s
      → length key ≤ key_max_bytes
      → int64 (counted amount (view hash capacity now key s)) ≡ true
      → s.free ≢ []
      → 0 < retries
      → (s' : SharedShard) × (increment hash capacity rebuild_threshold retries
            (λ j s. s)
            now
            key
            amount
            s
          ≡ (ok (counted amount (view hash capacity now key s)), s'))
        × Shows key
            (number_seen
              (counted amount (view hash capacity now key s))
              (kept_expiry (view hash capacity now key s)))
            s
            s'
  unfolding increment
  increment-Shows retries now key amount s v clear short small room positive =
      let write = write_increment now amount in
      let (x, s', was, e, w) =
        write-alone hash capacity rebuild_threshold max_keys fits write retries key s v clear short
          room positive in
      let (answer, h) =
        increment-visible now amount x
          (ap (λ (o : Option Seen). int64 (counted amount o)) (was now) ∙ small) in
      (
        s',
        e
            ∙ ap (λ (a : Result ℤ). leaving s' a)
                (answer ∙ ap (λ (o : Option Seen). ok (counted amount o)) (was now)),
        subst (λ (o : Option Seen). Shows key (number_seen (counted amount o) (kept_expiry o)) s s')
            (was now) (Written-Shows key _ (write x).1 s s' w h),
      )
