-- ===== src/InMemory/Methods.antt =====
-- The methods of `InMemoryBackend` on one key (src/traffik/backends/inmemory.py): on a well-formed
-- backend each returns, keeps it well formed, and changes the live entry of its own key alone.
use traffik.Base.{
  inl, inr, ◌≢◌, ◌↔◌, ℕ, ◌≤◌, ◌≡◌, refl, sym, ◌∙◌, true, Option, none, some, arith, if◌then◌else◌,
  Bool-cases, ◌==◌, get_elem?,
}
use traffik.Base.Int.{ℤ}
use traffik.Base.Text.{Str, str_eq}
use traffik.Base.Dict.{lookup}
use traffik.Result.{Returns}
use traffik.Shard
use traffik.Shard.{Shard, Entry, text, number, deadline, second, as_int}
use traffik.Shard.Sampling.{
  IsIndexed, get-IsIndexed, store-IsIndexed, delete-IsIndexed, increment-IsIndexed,
  expire-IsIndexed, increment_with_ttl-IsIndexed,
}
use traffik.Shard.View
use traffik.Shard.View.{
  live, shown_entry, rescheduled, incremented, incremented_ttl, counted, count_of,
}
use traffik.InMemory
use traffik.InMemory.{
  Backend, shard_idx, get, set_key, delete, increment, decrement, expire, increment_with_ttl,
}
use traffik.InMemory.Views.{IsValid, view, shard_of, with_shard-Replaced, seen_key, view-at}

-- From `b` to `b'` only `key` changed, to the entry `n`, as seen at every time from `now` on.
pub record Updated (hash : Str → ℤ) (now : ℕ) (key : Str) (n : Option Entry) (b b' : Backend)
    : Type 0 where
  pub valid : IsValid b'
  pub seen :
      (t : ℕ) (j : Str)
      → now ≤ t
      → view hash t j b' ≡ (if str_eq key j then live t n else view hash t j b)

module _ (hash : Str → ℤ) (now : ℕ) (key : Str) (b : Backend) (v : IsValid b) where
  -- A method whose step on the shard updates its key updates that key of the backend.
  with_shard-Updated :
      {A : Type 0} (f : Shard → A × Shard) (n : Shard → Option Entry) (P : Shard → A → Type 0)
      → ((s : Shard) → IsIndexed s → IsIndexed (f s).1)
      → ((s : Shard) → P s (f s).0)
      → ((s : Shard) (t : ℕ) (j : Str)
          → now ≤ t
          → View.view t j (f s).1 ≡ (if str_eq key j then live t (n s) else View.view t j s))
      → (s : Shard) × (view hash now key b ≡ View.view now key s)
        × Returns
            (InMemory.with_shard hash key f b)
            (λ r. P s r.0 × Updated hash now key (n s) b r.1)
  with_shard-Updated f n P keep result effect =
      let (s, at) = shard_of hash b key v in
      let (r, e, (a, p)) = with_shard-Replaced hash key f b s v at (keep s (v.indexed _ s at)) in
      (
        s,
        view-at hash b now key s refl at,
        (
          r,
          e,
          (
            rw a (result s),
            record {
              valid = p.valid;
              seen = λ t j h.
                  seen_key hash b key s (f s).1 r.1 t j (live t (n s)) at p (effect s t j h);
            },
          ),
        ),
      )

-- From `b` to `b'` nothing changed, as seen at every time from `now` on.
pub record Unchanged (hash : Str → ℤ) (now : ℕ) (b b' : Backend) : Type 0 where
  pub valid : IsValid b'
  pub seen : (t : ℕ) (j : Str) → now ≤ t → view hash t j b' ≡ view hash t j b

module _ (hash : Str → ℤ) (now : ℕ) (key : Str) (b : Backend) (v : IsValid b) where
  -- On a well-formed backend `get` returns the text of the live value of its key, or none, and
  -- changes nothing that can be seen from then on.
  pub get_lem :
      Returns
        (get hash now key b)
        (λ r. (r.0 ≡ shown_entry (view hash now key b)) × Unchanged hash now b r.1)
  unfolding get
  get_lem =
      let (s, at) = shard_of hash b key v in
      let (r, e, (a, p)) =
        with_shard-Replaced hash key (Shard.get now key) b s v at
          (get-IsIndexed now key s (v.indexed _ s at)) in
      (
        r,
        e,
        (
          rw (view-at hash b now key s refl at) (a ∙ View.get-eq-view now key s),
          record {
            valid = p.valid;
            seen = λ t j h. elim (Bool-cases (shard_idx hash b j == shard_idx hash b key)) [
              | inl same ↦
                  p.seen t j
                  ∙ rw same
                      (View.view-get now key s t j h ∙ sym (view-at hash b t j s (ground arith) at))
              | inr other ↦ p.seen t j ∙ rw other refl
            ];
          },
        ),
      )

  -- After `set` the key stands for the text that was set, until its deadline, and every other key
  -- for what it stood for.
  pub set_key_lem :
      (value : Str) (ttl : Option ℕ)
      → Returns
          (set_key hash now key value ttl b)
          (λ r. Updated hash now key (some (text value, deadline now ttl)) b r.1)
  unfolding set_key
  set_key_lem value ttl =
      let (s, e, (r, q, (_, u))) =
        with_shard-Updated hash now key b v
          (λ s. (tt, Shard.store key (text value, deadline now ttl) s))
          (λ _. some (text value, deadline now ttl)) (λ _ _. Unit) (λ s. store-IsIndexed s key _)
          (λ s. tt) (λ s t j h. View.view-store t key j s _) in
      (r, q, u)

  -- After `delete` the key stands for nothing, and every other key for what it stood for; the
  -- result is true if the key had a live entry.
  pub delete_lem :
      Returns
        (delete hash key b)
        (λ r. (view hash now key b ≢ none → r.0 ≡ true) × Updated hash now key none b r.1)
  unfolding delete
  delete_lem =
      let (s, e, (r, q, (p, u))) =
        with_shard-Updated hash now key b v (Shard.delete key) (λ _. none)
          (λ s a. View.view now key s ≢ none → a ≡ true) (delete-IsIndexed key)
          (View.delete_found now key) (λ s t j h. View.view-delete now key s t j) in
      (r, q, (λ h. p (λ k. h (e ∙ k)), u))

  -- `increment` returns the sum of the amount and the live count, an entry that is missing, has
  -- expired or is no integer counting as none; the sum is stored with the deadline of the live entry.
  pub increment_lem :
      (amount : ℤ)
      → Returns (increment hash now key amount b) (λ r.
        (r.0 ≡ counted amount (count_of (view hash now key b)))
        × Updated hash now key (some (incremented amount (view hash now key b))) b r.1)
  unfolding increment
  increment_lem amount =
      let (s, e, (r, q, (p, u))) =
        with_shard-Updated hash now key b v (Shard.increment now key amount)
          (λ s. some (incremented amount (View.view now key s)))
          (λ s a. a ≡ counted amount (count_of (View.view now key s)))
          (increment-IsIndexed now key amount) (View.increment-eq-counted now key amount)
          (View.view-increment now key amount) in
      (r, q, rw e (p, u))

  -- On a well-formed backend `increment_with_ttl` counts as `increment` does; a count that starts anew,
  -- or that had no deadline, gets the given one, and any other keeps its own. No other key changes,
  -- as seen from then on.
  pub increment_with_ttl_lem :
      (amount : ℤ) (ttl : ℕ)
      → Returns (increment_with_ttl hash now key amount ttl b) (λ r.
        (r.0 ≡ counted amount (count_of (view hash now key b)))
        × Updated hash now key (some (incremented_ttl now amount ttl (view hash now key b))) b r.1)
  unfolding increment_with_ttl
  increment_with_ttl_lem amount ttl =
      let (s, e, (r, q, (p, u))) =
        with_shard-Updated hash now key b v (Shard.increment_with_ttl now key amount ttl)
          (λ s. some (incremented_ttl now amount ttl (View.view now key s)))
          (λ s a. a ≡ counted amount (count_of (View.view now key s)))
          (increment_with_ttl-IsIndexed now key amount ttl)
          (View.increment_with_ttl-eq-counted now key amount ttl)
          (View.view-increment_with_ttl now key amount ttl) in
      (r, q, rw e (p, u))

abbrev stored_in : Str → Option Shard → Option Entry
stored_in key none = none
stored_in key (some s) = lookup key s.items

-- The entry of a key as it is stored, live or not.
unfoldable pub stored : (Str → ℤ) → Str → Backend → Option Entry
stored hash key b = stored_in key (get_elem? b.shards (shard_idx hash b key))

module _ (hash : Str → ℤ) (now : ℕ) (key : Str) (seconds : ℕ) (b : Backend) (v : IsValid b) where
  -- `expire` gives the stored entry a new deadline and tells whether there is one; an entry that has
  -- expired and is still stored counts, so the key stands for its old value again.
  pub expire_lem : Returns (expire hash now key seconds b) (λ r.
      ((r.0 ≡ true) ↔ (stored hash key b ≢ none))
      × Updated hash now key (rescheduled now seconds (stored hash key b)) b r.1)
  unfolding expire stored
  expire_lem =
      let (s, at) = shard_of hash b key v in
      let (r, e, (a, p)) =
        with_shard-Replaced hash key (Shard.expire now key seconds) b s v at
          (expire-IsIndexed now key seconds s (v.indexed _ s at)) in
      (
        r,
        e,
        (
          rw (a, at) (View.expire_result now key seconds s),
          record {
            valid = p.valid;
            seen = λ t j h.
                seen_key hash b key s (Shard.expire now key seconds s).1 r.1 t j _ at p
                  (rw at (View.view-expire now key seconds s t j));
          },
        ),
      )
