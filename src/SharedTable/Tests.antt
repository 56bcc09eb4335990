-- ===== src/SharedTable/Tests.antt =====
-- Runs of the hash table (src/traffik/backends/multiprocess.py).
use traffik.Base.{ℕ, ◌≤◌, ◌≡◌, refl, sym, ap, ◌∙◌, subst, some, none, length, if◌then◌else◌, arith}
use traffik.Base.Text.{Str, codes, str_eq}
use traffik.Result.{Result, ok, err, Returns}
use traffik.SharedTable.{
  empty, occupied, Table, blank, update, lookup_from, lookup, get_slot, upsert, delete,
}
use traffik.SharedTable.Counts.{count}
use traffik.SharedTable.Methods.{live, IsTable}
use traffik.SharedTable.Rebuild.{blank-IsProbed}
use traffik.SharedTable.Delete.{IsTidy}
use traffik.SharedTable.Refine.{get_slot-upsert, get_slot-delete}

abbrev hash : Str → ℕ
hash key = length key

abbrev first : Str
first = codes "a"

abbrev second : Str
second = codes "b"

blank-IsTable : IsTable hash 8 blank
unfolding count
blank-IsTable = record { probed = blank-IsProbed hash 8; room = omega arith }

-- Two keys with one hash value.
abbrev one_key : Table
one_key = record { buckets = update 1 (occupied first 7) (λ _. empty); tombstone_count = 0 }

abbrev two_keys : Table
two_keys = record { buckets = update 2 (occupied second 3) one_key.buckets; tombstone_count = 0 }

returned : {A : Type 0} (P : A → Type 0) (r : Result A) (a : A) → Returns r P → r ≡ ok a → P a
returned {A = A} P r a (b, e, p) same = subst P (ap value (sym e ∙ same)) p
  where
    value : Result A → A
    value (ok a) = a
    value (err e) = a

one-IsTable : IsTable hash 8 one_key
unfolding count upsert lookup lookup_from
one-IsTable =
    (returned _ (upsert hash 8 first 7 blank) one_key
      (get_slot-upsert hash 8 first 7 blank blank-IsTable (omega arith) (omega arith)) refl).0

two-IsTable : IsTable hash 8 two_keys
unfolding count upsert lookup lookup_from str_eq
two-IsTable =
    (returned _ (upsert hash 8 second 3 one_key) two_keys
      (get_slot-upsert hash 8 second 3 one_key one-IsTable (omega arith) (omega arith)) refl).0

get_slot-upsert_example : Returns (upsert hash 8 second 3 one_key) (λ t'.
    IsTable hash 8 t'
    × ((k : Str)
        → get_slot hash 8 k t'
          ≡ (if str_eq second k then ok (some 3) else get_slot hash 8 k one_key)))
unfolding count
get_slot-upsert_example =
    get_slot-upsert hash 8 second 3 one_key one-IsTable (omega arith) (omega arith)

two-IsTidy : IsTidy hash 8 1 two_keys
unfolding count
two-IsTidy = record { counted = omega arith; not_due = omega arith }

-- The delete is the one that makes a rebuild due.
get_slot-delete_example : Returns (delete hash 8 1 first two_keys) (λ r.
    IsTable hash 8 r.1
    × IsTidy hash 8 1 r.1
    × (live hash 8 r.1 ≤ live hash 8 two_keys)
    × (ok (r.0) ≡ get_slot hash 8 first two_keys)
    × ((k : Str)
        → get_slot hash 8 k r.1 ≡ (if str_eq first k then ok none else get_slot hash 8 k two_keys)))
unfolding count
get_slot-delete_example =
    get_slot-delete hash 8 1 first two_keys two-IsTable two-IsTidy (omega arith)
