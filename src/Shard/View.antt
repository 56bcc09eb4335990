-- ===== src/Shard/View.antt =====
-- What a caller can see of a shard (src/traffik/backends/inmemory.py): the entries that have not
-- expired. Each operation is compared with its effect on that view, at any later time.
use mathlib.Core.Logic.{◌≢◌, ◌↔◌}
use traffik.Base.{
  sym, true, List, ℕ, ◌+◌, ◌*◌, ◌≤◌, ◌≡◌, refl, Option, none, some, arith, if◌then◌else◌,
}
use traffik.Base.Int.{ℤ, ◌+ℤ◌}
use traffik.Base.Text.{Str, str_eq, str_eq_iff}
use traffik.Base.Dict.{lookup, insert, erase, lookup-insert, lookup-erase}
use traffik.Shard.{
  expire, Shard, Entry, number, shown, as_int, expired, second, index_insert, swap_pop,
  index_remove_at, drop_key, store, overwrite, get, delete, increment, increment_with_ttl,
}

-- An entry, while it has not expired.
abbrev pub live : ℕ → Option Entry → Option Entry
live now none = none
live now (some e) = if expired now e.1 then none else some e

unfoldable pub view : ℕ → Str → Shard → Option Entry
view now key s = live now (lookup key s.items)

abbrev pub shown_entry : Option Entry → Option Str
shown_entry none = none
shown_entry (some e) = some (shown e.0)

-- What has expired stays expired.
pub live_later : (now t : ℕ) (o : Option Entry) → now ≤ t → live t (live now o) ≡ live t o
live_later now t none h = refl
live_later now t (some (v, none)) h = refl
live_later now t (some (v, some u)) h = ground arith

items-swap_pop :
    (p : ℕ) (u : Option (Str × List Str)) (s : Shard) → (swap_pop p u s).items ≡ s.items
unfolding swap_pop
items-swap_pop p none s = refl
items-swap_pop p (some (l, r)) s = ground arith

items-index_remove_at :
    (key : Str) (o : Option ℕ) (s : Shard) → (index_remove_at key o s).items ≡ s.items
unfolding index_remove_at
items-index_remove_at key none s = refl
items-index_remove_at key (some p) s = items-swap_pop p _ _

items-drop_key : (key : Str) (s : Shard) → (drop_key key s).items ≡ erase key s.items
unfolding drop_key
items-drop_key key s =
    items-index_remove_at key (lookup key s.key_positions) (record s { items = erase key s.items })

items-store : (key : Str) (e : Entry) (s : Shard) → (store key e s).items ≡ insert key e s.items
unfolding store index_insert
items-store key e s = ground arith

items-overwrite :
    (key : Str) (e : Entry) (s : Shard) → (overwrite key e s).items ≡ insert key e s.items
unfolding overwrite
items-overwrite key e s = refl

module _ (t : ℕ) (key j : Str) (s : Shard) where
  pub view-store :
      (e : Entry)
      → view t j (store key e s) ≡ (if str_eq key j then live t (some e) else view t j s)
  unfolding view
  view-store e = rw (items-store, lookup-insert) (ground arith)

  pub view-overwrite :
      (e : Entry)
      → view t j (overwrite key e s) ≡ (if str_eq key j then live t (some e) else view t j s)
  unfolding view
  view-overwrite e = rw (items-overwrite, lookup-insert) (ground arith)

  pub view-drop_key : view t j (drop_key key s) ≡ (if str_eq key j then none else view t j s)
  unfolding view
  view-drop_key = rw (items-drop_key, lookup-erase) (ground arith)

ruleset view_laws = (view-store, view-overwrite, view-drop_key)

module _ (now : ℕ) (key : Str) (s : Shard) where
  -- `get` returns the live value of its key.
  pub get-eq-view : (get now key s).0 ≡ shown_entry (view now key s)
  unfolding get view
  get-eq-view = ground arith

  -- The clean-up that `get` makes on the way cannot be seen.
  pub view-get : (t : ℕ) (j : Str) → now ≤ t → view t j (get now key s).1 ≡ view t j s
  unfolding get view
  view-get t j h =
      ground (arith, items-drop_key key s, lookup-erase key j s.items, str_eq_iff key j)

  pub view-delete :
      (t : ℕ) (j : Str) → view t j (delete key s).1 ≡ (if str_eq key j then none else view t j s)
  unfolding delete view
  view-delete t j =
      ground (arith, items-drop_key key s, lookup-erase key j s.items, str_eq_iff key j)

-- The counter that an increment leaves, from the live entry that it finds.
abbrev pub counted : ℤ → Option ℤ → ℤ
counted amount none = amount
counted amount (some current) = current +ℤ amount

abbrev pub incremented : ℤ → Option Entry → Entry
incremented amount none = (number amount, none)
incremented amount (some (v, expires_at)) = (number (counted amount (as_int v)), expires_at)

-- The deadline after `increment_with_ttl`: an integer keeps the one that it has.
abbrev kept_deadline : ℕ → Option ℤ → Option ℕ → Option ℕ
kept_deadline t none expires_at = some t
kept_deadline t (some n) none = some t
kept_deadline t (some n) (some u) = some u

abbrev pub incremented_ttl : ℕ → ℤ → ℕ → Option Entry → Entry
incremented_ttl now amount ttl none = (number amount, some (now + second * ttl))
incremented_ttl now amount ttl (some (v, expires_at)) =
    (number (counted amount (as_int v)), kept_deadline (now + second * ttl) (as_int v) expires_at)

abbrev pub count_of : Option Entry → Option ℤ
count_of none = none
count_of (some e) = as_int e.0

module _ (now : ℕ) (key : Str) (amount : ℤ) (s : Shard) where
  pub increment-eq-counted :
      (increment now key amount s).0 ≡ counted amount (count_of (view now key s))
  unfolding increment view
  increment-eq-counted = ground arith

  pub view-increment :
      (t : ℕ) (j : Str)
      → now ≤ t
      → view t j (increment now key amount s).1
        ≡ (if str_eq key j then live t (some (incremented amount (view now key s))) else view t j s)
  unfolding increment view
  view-increment t j h = grind (arith, items-store, items-overwrite, lookup-insert)

module _ (now : ℕ) (key : Str) (amount : ℤ) (ttl : ℕ) (s : Shard) where
  pub increment_with_ttl-eq-counted :
      (increment_with_ttl now key amount ttl s).0 ≡ counted amount (count_of (view now key s))
  unfolding increment_with_ttl view
  increment_with_ttl-eq-counted = ground arith

  pub view-increment_with_ttl :
      (t : ℕ) (j : Str)
      → now ≤ t
      → view t j (increment_with_ttl now key amount ttl s).1 ≡ (
          if str_eq key j
          then live t (some (incremented_ttl now amount ttl (view now key s)))
          else view t j s)
  unfolding increment_with_ttl view
  view-increment_with_ttl t j h = grind (arith, items-store, items-overwrite, lookup-insert)

-- A live entry is found by `delete`.
pub delete_found :
    (now : ℕ) (key : Str) (s : Shard) → view now key s ≢ none → (delete key s).0 ≡ true
unfolding delete view
delete_found now key s h = ground arith

-- What `expire` stores: the value that is there, expired or not.
abbrev pub rescheduled : ℕ → ℕ → Option Entry → Option Entry
rescheduled now seconds none = none
rescheduled now seconds (some (value, _)) = some (value, some (now + second * seconds))

module _ (now : ℕ) (key : Str) (seconds : ℕ) (s : Shard) where
  pub expire_result : ((expire now key seconds s).0 ≡ true) ↔ (lookup key s.items ≢ none)
  unfolding expire
  expire_result = (λ h. ground arith, λ h. ground arith)

  pub view-expire :
      (t : ℕ) (j : Str)
      → view t j (expire now key seconds s).1 ≡ (
          if str_eq key j
          then live t (rescheduled now seconds (lookup key s.items))
          else view t j s)
  unfolding expire view
  view-expire t j = grind (arith, items-overwrite, lookup-insert, str_eq_iff key j)

-- An entry is seen until its deadline and never again.
pub view_later :
    (now t : ℕ) (key : Str) (s : Shard) → now ≤ t → view t key s ≡ live t (view now key s)
unfolding view
view_later now t key s h = sym (live_later now t (lookup key s.items) h)
