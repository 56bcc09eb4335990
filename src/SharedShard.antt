-- ===== src/SharedShard.antt =====
-- One shard of `MultiProcessInMemoryBackend` (src/traffik/backends/multiprocess.py): the hash table, the
-- free stack, and the slots with their generations. What runs under one hold of a semaphore is one
-- step; `between i` is what other processes do to the shard between the two holds of attempt `i`. A
-- call gives its result and the shard that it leaves, also where it raises. Times are whole
-- milliseconds, a TTL is in seconds, and an expiry of zero is none.
pub mod Alone
pub mod Answers
pub mod Atomic
pub mod Calls
pub mod Commands
pub mod Generations
pub mod Linear
pub mod Ownership
pub mod Reap
pub mod Reaped
pub mod Removal
pub mod Start
pub mod Taking
mod Tests
pub mod View
use traffik.Base.{
  ℕ, zero, suc, ◌+◌, ◌-◌, ◌*◌, ◌%◌, ◌^◌, Bool, true, false, not, ◌&&◌, ◌||◌, Option, none, some,
  List, [], ◌∷◌, length, ltb, leb, ◌==◌, if◌then◌else◌,
}
use traffik.Base.Int.{ℤ, pos, negsuc, ◌+ℤ◌}
use traffik.Base.Text.{Str, int_of_str, str_of_int}
use traffik.Result.{Error, backend_error, struct_error, Result, ok, err}
use traffik.SharedTable.{Table, update, get_slot, upsert, delete, blank}

-- `_STRING_SLOT_KIND`, `_INT_SLOT_KIND`
pub data Kind : Type 0 where
  string_kind int_kind : Kind

pub record Slot : Type 0 where
  pub kind : Kind
  pub value : Str
  pub int_value : ℤ
  pub expires_at : ℕ
  pub occupied : Bool

pub record SharedShard : Type 0 where
  pub table : Table
  pub free : List ℕ
  pub generations : ℕ → ℕ
  pub slots : ℕ → Slot

abbrev pub second : ℕ
second = 1000

-- `_bump_slot_generation`
abbrev pub bump : ℕ → SharedShard → SharedShard
bump slot_idx s = record s {
  generations = update slot_idx ((s.generations slot_idx + 1) % 2 ^ 32) s.generations;
}

-- `_free_stack_push`; the top of the stack is the head of the list.
abbrev pub free_stack_push : ℕ → SharedShard → SharedShard
free_stack_push slot_idx s = bump slot_idx (record s { free = slot_idx ∷ s.free })

-- `_clear_slot`
abbrev pub clear_slot : ℕ → SharedShard → SharedShard
clear_slot slot_idx s = record s {
  slots = update slot_idx (record (s.slots slot_idx) { occupied = false }) s.slots;
}

-- `expires_at != 0 and expires_at <= now`
abbrev pub passed : ℕ → ℕ → Bool
passed now expires_at = not (expires_at == 0) && leb expires_at now

abbrev pub expired : ℕ → Slot → Bool
expired now x = passed now x.expires_at

-- The expiry that `_set` writes.
abbrev pub deadline : ℕ → Option ℕ → ℕ
deadline now none = 0
deadline now (some ttl) = now + second * ttl

-- A value that `=q` packs.
abbrev pub int64 : ℤ → Bool
int64 (pos n) = ltb n (2 ^ 63)
int64 (negsuc n) = ltb n (2 ^ 63)

-- A length that `=H` packs.
abbrev pub uint16 : ℕ → Bool
uint16 n = ltb n (2 ^ 16)

-- `_write_string_slot`; the kind is written before the length of the value is packed.
unfoldable pub write_string_slot : ℕ → Str → ℕ → Slot → Result (Unit {0}) × Slot
write_string_slot max_value_size value expires_at x =
    if ltb max_value_size (length value)
    then (err backend_error, x)
    else if uint16 (length value)
    then (
      ok tt,
      record x { kind = string_kind; value = value; expires_at = expires_at; occupied = true },
    )
    else (err struct_error, record x { kind = string_kind })

-- `_write_int_slot`; the kind is written before the number is packed.
unfoldable pub write_int_slot : ℤ → ℕ → Slot → Result ℤ × Slot
write_int_slot n expires_at x =
    if int64 n
    then (
      ok n,
      record x { kind = int_kind; int_value = n; expires_at = expires_at; occupied = true },
    )
    else (err struct_error, record x { kind = int_kind })

-- `_write_int_value`
unfoldable pub write_int_value : ℤ → Slot → Result ℤ × Slot
write_int_value n x =
    if int64 n
    then (ok n, record x { kind = int_kind; int_value = n })
    else (err struct_error, record x { kind = int_kind })

unfoldable pub or_zero : Option ℤ → ℤ
or_zero none = pos 0
or_zero (some n) = n

-- The number that an occupied slot stands for.
unfoldable pub current_in : Kind → Slot → ℤ
current_in int_kind x = x.int_value
current_in string_kind x = or_zero (int_of_str x.value)

unfoldable pub current : Slot → ℤ
unfolding or_zero current_in
current x = current_in x.kind x

unfoldable pub shown_in : Kind → Slot → Str
shown_in int_kind x = str_of_int x.int_value
shown_in string_kind x = x.value

-- The text of an occupied slot.
unfoldable pub shown : Slot → Str
unfolding shown_in
shown x = shown_in x.kind x

-- What `get` reads of a slot.
unfoldable pub read : ℕ → Slot → Option Str
read now x = if not x.occupied || expired now x then none else some (shown x)

-- What the second phases write: `set`, `increment`, `increment_with_ttl`, `expire`.
unfoldable pub write_increment : ℕ → ℤ → Slot → Result ℤ × Slot
write_increment now amount x =
    if not x.occupied || expired now x
    then write_int_slot amount 0 x
    else write_int_value (current x +ℤ amount) x

unfoldable pub write_increment_ttl : ℕ → ℤ → ℕ → Slot → Result ℤ × Slot
write_increment_ttl now amount ttl x =
    if not x.occupied || expired now x
    then write_int_slot amount (now + second * ttl) x
    else write_int_slot (current x +ℤ amount)
        (if x.expires_at == 0 then now + second * ttl else x.expires_at) x

unfoldable pub write_expire : ℕ → ℕ → Slot → Result Bool × Slot
write_expire now seconds x =
    if not x.occupied || expired now x
    then (ok false, x)
    else (ok true, record x { expires_at = now + second * seconds })

-- A write of one slot.
abbrev pub on_slot :
    {A : Type 0} → ℕ → (Slot → Result A × Slot) → SharedShard → Result A × SharedShard
on_slot slot_idx f s =
    let r = f (s.slots slot_idx) in (r.0, record s { slots = update slot_idx r.1 s.slots })
