-- ===== src/InMemory/MultiSet.antt =====
-- `multi_set` of `InMemoryBackend` (src/traffik/backends/inmemory.py): its loop over the shards does
-- what setting the items one after another would do.
use traffik.Base.{
  ℕ, ◌<◌, ◌≡◌, refl, ◌∙◌, true, false, Option, none, some, List, [], ◌∷◌, arith, ◌==◌,
  if◌then◌else◌, Bool-cases, inl, inr, ap, ==_iff, get_elem?, get_elem?_of_lt,
}
use traffik.Base.Int.{ℤ}
use traffik.Base.Text.{Str, str_eq, str_eq_iff}
use traffik.Result.{Returns}
use traffik.Shard
use traffik.Shard.{Shard, Entry, text, deadline}
use traffik.Shard.Sampling.{IsIndexed, store-IsIndexed}
use traffik.Shard.View
use traffik.Shard.View.{live}
use traffik.InMemory.{
  Backend, shard_idx, mod_int, on_shard, shard_indexes, write_items, multi_set_shards, multi_set,
}
use traffik.InMemory.Groups.{elem, has_key, elem-shard_indexes, shard_indexes-lt}
use traffik.InMemory.Views.{IsValid, Replaced, view, view-at, at_shard-Replaced, ready_of}

-- The last value that the items give to a key.
abbrev pub assigned : Str → List (Str × Str) → Option Str
assigned j [] = none
assigned j ((k, v) ∷ items) = elim (assigned j items) [
  | none ↦ if str_eq k j then some v else none
  | some w ↦ some w
]

-- What a key stands for at the time `t`, once it was given the value, if any.
abbrev pub override : ℕ → Option ℕ → Option Str → Option Entry → Option Entry
override t expires_at none old = old
override t expires_at (some v) old = live t (some (text v, expires_at))

override_twice :
    (t : ℕ) (d : Option ℕ) (a : Option Str) (o : Option Entry)
    → override t d a (override t d a o) ≡ override t d a o
override_twice t d none o = refl
override_twice t d (some v) o = refl

write_items-IsIndexed :
    (d : Option ℕ) (items : List (Str × Str)) (s : Shard)
    → IsIndexed s
    → IsIndexed (write_items d items s).1
unfolding write_items
write_items-IsIndexed d [] s v = v
write_items-IsIndexed d ((k, w) ∷ items) s v =
    write_items-IsIndexed d items _ (store-IsIndexed s k (text w, d) v)

view-write_items :
    (d : Option ℕ) (items : List (Str × Str)) (s : Shard) (t : ℕ) (j : Str)
    → View.view t j (write_items d items s).1 ≡ override t d (assigned j items) (View.view t j s)
unfolding write_items
view-write_items d [] s t j = refl
view-write_items d ((k, w) ∷ items) s t j = ground (
  arith,
  view-write_items d items (Shard.store k (text w, d) s) t j,
  View.view-store t k j s (text w, d),
)

none_of_absent :
    (j : Str) (items : List (Str × Str))
    → has_key (λ e. e.0) j items ≡ false
    → assigned j items ≡ none
none_of_absent j [] h = refl
none_of_absent j ((k, w) ∷ items) h = ground (arith, none_of_absent j items)

module _ (hash : Str → ℤ) where
  assigned-on_shard :
      (b : Backend) (i : ℕ) (j : Str) (items : List (Str × Str))
      → assigned j (on_shard hash (λ e. e.0) i b items)
        ≡ (if shard_idx hash b j == i then assigned j items else none)
  unfolding on_shard
  assigned-on_shard b i j [] = ground arith
  assigned-on_shard b i j ((k, w) ∷ items) = elim (Bool-cases (str_eq k j)) [
    | inl e ↦ ground (arith, assigned-on_shard b i j items, str_eq_iff k j)
    | inr e ↦ ground (arith, assigned-on_shard b i j items, str_eq_iff k j)
  ]

  module _ (d : Option ℕ) (b₀ : Backend) (items : List (Str × Str)) where
    abbrev groups : ℕ → List (Str × Str)
    groups i = on_shard hash (λ e. e.0) i b₀ items

    -- What the loop over the shards `is` leaves behind.
    record Written (is : List ℕ) (b b' : Backend) : Type 0 where
      valid : IsValid b'
      seen :
          (t : ℕ) (j : Str)
          → view hash t j b' ≡ (
              if elem (shard_idx hash b₀ j) is
              then override t d (assigned j items) (view hash t j b)
              else view hash t j b)

    -- One round of the loop.
    first_seen :
        (i : ℕ) (b b' : Backend) (s : Shard) (t : ℕ) (j : Str)
        → b.number_of_shards ≡ b₀.number_of_shards
        → get_elem? b.shards i ≡ some s
        → Replaced hash b i (write_items d (groups i) s).1 b'
        → view hash t j b' ≡ (
            if shard_idx hash b₀ j == i
            then override t d (assigned j items) (view hash t j b)
            else view hash t j b)
    first_seen i b b' s t j same at p = elim (Bool-cases (shard_idx hash b₀ j == i)) [
      | inl e ↦
          let here : shard_idx hash b j ≡ i =
            ap (mod_int (hash j)) same ∙ (==_iff (shard_idx hash b₀ j) i).0 e in
          p.seen t j
          ∙ rw ((==_iff (shard_idx hash b j) i).1 here, e)
              (view-write_items d (groups i) s t j
                ∙ rw (assigned-on_shard b₀ i j items, e, view-at hash b t j s here at) refl)
      | inr e ↦
          let away : (shard_idx hash b j == i) ≡ false =
            ap (λ (n : ℕ). mod_int (hash j) n == i) same ∙ e in
          p.seen t j ∙ rw (away, e) refl
    ]

    rest_seen :
        (i : ℕ) (is : List ℕ) (b b' b'' : Backend) (t : ℕ) (j : Str)
        → view hash t j b' ≡ (
            if shard_idx hash b₀ j == i
            then override t d (assigned j items) (view hash t j b)
            else view hash t j b)
        → Written is b' b''
        → view hash t j b'' ≡ (
            if elem (shard_idx hash b₀ j) (i ∷ is)
            then override t d (assigned j items) (view hash t j b)
            else view hash t j b)
    rest_seen i is b b' b'' t j h w =
        w.seen t j ∙ rw h (ground (arith, override_twice t d (assigned j items) (view hash t j b)))

    multi_set_shards-Written :
        (is : List ℕ) (b : Backend)
        → IsValid b
        → b.number_of_shards ≡ b₀.number_of_shards
        → ((i : ℕ) → elem i is ≡ true → i < b₀.number_of_shards)
        → Returns (multi_set_shards hash d groups is b) (λ r. Written is b r.1)
    unfolding multi_set_shards
    multi_set_shards-Written [] b v same lt =
        ((tt, b), refl, record { valid = v; seen = λ t j. refl })
    multi_set_shards-Written (i ∷ is) b v same lt =
        let (s, at) = get_elem?_of_lt b.shards i (omega (arith, lt i (ground arith), v.count)) in
        let (r, e, (_, p)) =
          at_shard-Replaced hash i (write_items d (groups i)) b s v at
            (write_items-IsIndexed d (groups i) s (v.indexed i s at)) in
        let (r', e', w) =
          multi_set_shards-Written is r.1 p.valid (p.same_count ∙ same)
            (λ k h. lt k (ground arith)) in
        (
          r',
          rw e e',
          record {
            valid = w.valid;
            seen = λ t j. rest_seen i is b r.1 r'.1 t j (first_seen i b r.1 s t j same at p) w;
          },
        )

  -- On a well-formed backend `multi_set` returns, keeps the backend well formed, gives every key of
  -- the items the last value that they hold for it, until the common deadline, and leaves every
  -- other key as it was.
  pub multi_set_lem :
      (now : ℕ) (items : List (Str × Str)) (ttl : Option ℕ) (b : Backend)
      → IsValid b
      → Returns (multi_set hash now items ttl b) (λ r.
        IsValid r.1
        × ((t : ℕ) (j : Str)
            → view hash t j r.1
              ≡ override t (deadline now ttl) (assigned j items) (view hash t j b)))
  unfolding multi_set
  multi_set_lem now [] ttl b v = ((tt, b), rw (ready_of b v) refl, (v, λ t j. refl))
  multi_set_lem now (k ∷ ks) ttl b v =
      let items = k ∷ ks in
      let (r, e, w) =
        multi_set_shards-Written (deadline now ttl) b items (shard_indexes hash (λ e. e.0) b items)
          b v refl (shard_indexes-lt hash b (λ e. e.0) items v.nonzero) in
      (
        r,
        rw (ready_of b v) e,
        (
          w.valid,
          λ t j. elim (Bool-cases (has_key (λ e. e.0) j items)) [
            | inl there ↦ w.seen t j ∙ rw (elem-shard_indexes hash b (λ e. e.0) j items there) refl
            | inr absent ↦ ground (arith, w.seen t j, none_of_absent j items absent)
          ],
        ),
      )
