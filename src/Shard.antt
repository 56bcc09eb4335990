-- ===== src/Shard.antt =====
-- One shard of `InMemoryBackend` (src/traffik/backends/inmemory.py): the dictionary of entries and
-- the sampling index beside it, with the part of each backend method that runs on the shard of
-- its key. Times are whole milliseconds of the monotonic clock, read by the caller; a TTL is a
-- number of seconds.
pub mod Index
pub mod Sampling
pub mod View
use traffik.Base.{
  ℕ, zero, suc, ◌+◌, ◌*◌, ◌≡◌, refl, Bool, true, false, Option, none, some, List, [], ◌∷◌, ◌++◌,
  length, set, get_elem?, unsnoc, min, ltb, leb, if◌then◌else◌,
}
use traffik.Base.Int.{ℤ, ◌+ℤ◌}
use traffik.Base.Text.{Str, int_of_str, str_of_int}
use traffik.Base.Dict.{Dict, lookup, contains, insert, erase}

-- What `shard[key]` holds: text from `set`, a raw `int` from the increments.
pub data Value : Type 0 where
  text : Str → Value
  number : ℤ → Value

-- `(value, expires_at)`
abbrev pub Entry : Type 0
Entry = Value × Option ℕ

pub record Shard : Type 0 where
  pub items : Dict Entry
  pub key_list : List Str
  pub key_positions : Dict ℕ

abbrev pub empty : Shard
empty = record { items = []; key_list = []; key_positions = [] }

abbrev pub second : ℕ
second = 1000

-- `expires_at is not None and expires_at <= now`
abbrev pub expired : ℕ → Option ℕ → Bool
expired now none = false
expired now (some t) = leb t now

-- `value if isinstance(value, str) else str(value)`
unfoldable pub shown : Value → Str
shown (text s) = s
shown (number n) = str_of_int n

-- `int(value)`, `none` where it raises.
unfoldable pub as_int : Value → Option ℤ
as_int (text s) = int_of_str s
as_int (number n) = some n

-- `_index_insert`
unfoldable pub index_insert : Str → Shard → Shard
index_insert key s = record s {
  key_list = s.key_list ++ key ∷ [];
  key_positions = insert key (length s.key_list) s.key_positions;
}

-- The swap-pop of `_index_remove`, once `key` is popped from the positions.
swap_pop : ℕ → Option (Str × List Str) → Shard → Shard
swap_pop position none s = s
swap_pop position (some (last_key, rest)) s =
    if ltb position (length rest)
    then record s {
      key_list = set rest position last_key;
      key_positions = insert last_key position s.key_positions;
    }
    else record s { key_list = rest }

index_remove_at : Str → Option ℕ → Shard → Shard
unfolding swap_pop
index_remove_at key none s = s
index_remove_at key (some position) s =
    swap_pop position (unsnoc s.key_list) (record s { key_positions = erase key s.key_positions })

-- `_index_remove`
unfoldable pub index_remove : Str → Shard → Shard
unfolding index_remove_at
index_remove key s = index_remove_at key (lookup key s.key_positions) s

-- `del shard[key]` and `_index_remove`.
unfoldable pub drop_key : Str → Shard → Shard
unfolding index_remove
drop_key key s = index_remove key (record s { items = erase key s.items })

-- `shard[key] = entry`, with `_index_insert` if the key is new.
unfoldable pub store : Str → Entry → Shard → Shard
unfolding index_insert
store key e s =
    let s' = record s { items = insert key e s.items } in
    if contains key s.items then s' else index_insert key s'

read_entry : ℕ → Str → Option Entry → Shard → Option Str × Shard
read_entry now key none s = (none, s)
read_entry now key (some (value, expires_at)) s =
    if expired now expires_at then (none, drop_key key s) else (some (shown value), s)

-- `get`, and the body of the loop of `multi_get`.
unfoldable pub get : ℕ → Str → Shard → Option Str × Shard
unfolding read_entry
get now key s = read_entry now key (lookup key s.items) s

-- `expires_at` for an optional TTL in seconds.
abbrev pub deadline : ℕ → Option ℕ → Option ℕ
deadline now none = none
deadline now (some ttl) = some (now + second * ttl)

-- `delete`
unfoldable pub delete : Str → Shard → Bool × Shard
delete key s = if contains key s.items then (true, drop_key key s) else (false, s)

-- `shard[key] = entry` for a key that is there.
unfoldable pub overwrite : Str → Entry → Shard → Shard
overwrite key e s = record s { items = insert key e s.items }

-- The last step of `increment`: the old value is an integer, or is reset.
increment_number : Str → ℤ → Option ℕ → Option ℤ → Shard → ℤ × Shard
increment_number key amount expires_at none s =
    (amount, overwrite key (number amount, expires_at) s)
increment_number key amount expires_at (some current) s =
    (current +ℤ amount, overwrite key (number (current +ℤ amount), expires_at) s)

increment_entry : ℕ → Str → ℤ → Option Entry → Shard → ℤ × Shard
unfolding increment_number
increment_entry now key amount none s = (amount, store key (number amount, none) s)
increment_entry now key amount (some (value, expires_at)) s =
    if expired now expires_at
    then (amount, overwrite key (number amount, none) s)
    else increment_number key amount expires_at (as_int value) s

-- `increment`
unfoldable pub increment : ℕ → Str → ℤ → Shard → ℤ × Shard
unfolding increment_entry
increment now key amount s = increment_entry now key amount (lookup key s.items) s

expire_entry : ℕ → Str → ℕ → Option Entry → Shard → Bool × Shard
expire_entry now key seconds none s = (false, s)
expire_entry now key seconds (some (value, _)) s =
    (true, overwrite key (value, some (now + second * seconds)) s)

-- `expire`
unfoldable pub expire : ℕ → Str → ℕ → Shard → Bool × Shard
unfolding expire_entry
expire now key seconds s = expire_entry now key seconds (lookup key s.items) s

-- The TTL is set only where the counter has none.
abbrev keep_or : Option ℕ → ℕ → Option ℕ
keep_or none t = some t
keep_or (some u) t = some u

increment_number_ttl : ℕ → Str → ℤ → ℕ → Option ℕ → Option ℤ → Shard → ℤ × Shard
increment_number_ttl now key amount ttl expires_at none s =
    (amount, overwrite key (number amount, some (now + second * ttl)) s)
increment_number_ttl now key amount ttl expires_at (some current) s = (
  current +ℤ amount,
  overwrite key (number (current +ℤ amount), keep_or expires_at (now + second * ttl)) s,
)

increment_entry_ttl : ℕ → Str → ℤ → ℕ → Option Entry → Shard → ℤ × Shard
unfolding increment_number_ttl
increment_entry_ttl now key amount ttl none s =
    (amount, store key (number amount, some (now + second * ttl)) s)
increment_entry_ttl now key amount ttl (some (value, expires_at)) s =
    if expired now expires_at
    then (amount, overwrite key (number amount, some (now + second * ttl)) s)
    else increment_number_ttl now key amount ttl expires_at (as_int value) s

-- `increment_with_ttl`
unfoldable pub increment_with_ttl : ℕ → Str → ℤ → ℕ → Shard → ℤ × Shard
unfolding increment_entry_ttl
increment_with_ttl now key amount ttl s =
    increment_entry_ttl now key amount ttl (lookup key s.items) s
