-- ===== src/InMemory/Views.antt =====
-- `InMemoryBackend` (src/traffik/backends/inmemory.py) as a map from keys to live entries: a step on
-- one shard keeps the backend well formed, and every key of another shard as it was.
use traffik.Base.{
  ◌≤◌, ℕ, ◌<◌, ◌≡◌, refl, sym, ◌∙◌, ap, Bool, true, Option, none, some, List, [], ◌∷◌, arith,
  if◌then◌else◌, Bool-cases, length, set, get_elem?, length-set, get_elem?-set, subst,
  lt_of_get_elem?, get_elem?_of_lt, ◌==◌, inl, inr,
}
use traffik.Base.Int.{ℤ, pos, negsuc}
use traffik.Base.Text.{Str, str_eq, str_eq_iff}
use traffik.Result.{ok, Returns}
use traffik.Shard.{Shard, Entry}
use traffik.Shard.Sampling.{IsIndexed}
use traffik.Shard.View
use traffik.InMemory.{Backend, shard_idx, mod_int, at_shard, with_shard, assert_ready}

-- The backend is initialized, and every shard has its index in step.
pub record IsValid (b : Backend) : Type 0 where
  pub running : b.initialized ≡ true
  pub nonzero : 0 < b.number_of_shards
  pub count : length b.shards ≡ b.number_of_shards
  pub indexed : (i : ℕ) (s : Shard) → get_elem? b.shards i ≡ some s → IsIndexed s

abbrev pub view_in : ℕ → Str → Option Shard → Option Entry
view_in now key none = none
view_in now key (some s) = View.view now key s

pub view_in_later :
    (now t : ℕ) (key : Str) (o : Option Shard)
    → now ≤ t
    → view_in t key o ≡ View.live t (view_in now key o)
view_in_later now t key none h = refl
view_in_later now t key (some s) h = View.view_later now t key s h

pub mod_int-lt : (a : ℤ) (m : ℕ) → 0 < m → mod_int a m < m
mod_int-lt (pos a) m h = omega arith
mod_int-lt (negsuc a) m h = omega arith

pub ready_of : (b : Backend) → IsValid b → assert_ready b ≡ ok tt
ready_of b v = go b.shards b.initialized v.count v.running
  where
    go :
        (l : List Shard) (i : Bool)
        → length l ≡ b.number_of_shards
        → i ≡ true
        → assert_ready (record b { shards = l; initialized = i }) ≡ ok tt
    go [] i c r = absurd (omega (arith, v.nonzero))
    go (s ∷ l) i c r = rw r

module _ (hash : Str → ℤ) where
  -- What a key stands for at the time `now`.
  unfoldable pub view : ℕ → Str → Backend → Option Entry
  view now key b = view_in now key (get_elem? b.shards (shard_idx hash b key))

  -- The shard of a key is there.
  pub shard_of :
      (b : Backend) (key : Str)
      → IsValid b
      → (s : Shard) × (get_elem? b.shards (shard_idx hash b key) ≡ some s)
  shard_of b key v =
      get_elem?_of_lt b.shards _
        (omega (arith, v.count, mod_int-lt (hash key) b.number_of_shards v.nonzero))

  -- `b'` is `b` with the shard `i` replaced by `s'`.
  pub record Replaced (b : Backend) (i : ℕ) (s' : Shard) (b' : Backend) : Type 0 where
    pub valid : IsValid b'
    pub same_count : b'.number_of_shards ≡ b.number_of_shards
    pub seen :
        (t : ℕ) (j : Str)
        → view t j b' ≡ (if shard_idx hash b j == i then View.view t j s' else view t j b)

  set_shard-Replaced :
      (b : Backend) (i : ℕ) (s s' : Shard)
      → IsValid b
      → get_elem? b.shards i ≡ some s
      → IsIndexed s'
      → Replaced b i s' (record b { shards = set b.shards i s' })
  unfolding view
  set_shard-Replaced b i s s' v at w = record {
    valid = record {
      running = v.running;
      nonzero = v.nonzero;
      count = length-set b.shards i s' ∙ v.count;
      indexed = λ k u h. elim (Bool-cases (i == k)) [
        | inl e ↦ subst IsIndexed (ground (arith, written k)) w
        | inr e ↦ v.indexed k u (ground (arith, written k))
      ];
    };
    same_count = refl;
    seen = λ t j. ground (arith, written (shard_idx hash b j));
  }
    where
      written :
          (k : ℕ)
          → get_elem? (set b.shards i s') k ≡ (if i == k then some s' else get_elem? b.shards k)
      written k = get_elem?-set b.shards i s' k (lt_of_get_elem? b.shards i s at)

  pub at_shard-Replaced :
      {A : Type 0} (i : ℕ) (f : Shard → A × Shard) (b : Backend) (s : Shard)
      → IsValid b
      → get_elem? b.shards i ≡ some s
      → IsIndexed (f s).1
      → Returns (at_shard hash i f b) (λ r. (r.0 ≡ (f s).0) × Replaced b i (f s).1 r.1)
  unfolding at_shard
  at_shard-Replaced i f b s v at w = (
    ((f s).0, record b { shards = set b.shards i (f s).1 }),
    ground arith,
    (refl, set_shard-Replaced b i s (f s).1 v at w),
  )

  -- The method body runs on the shard of its key.
  pub with_shard-Replaced :
      {A : Type 0} (key : Str) (f : Shard → A × Shard) (b : Backend) (s : Shard)
      → IsValid b
      → get_elem? b.shards (shard_idx hash b key) ≡ some s
      → IsIndexed (f s).1
      → Returns
          (with_shard hash key f b)
          (λ r. (r.0 ≡ (f s).0) × Replaced b (shard_idx hash b key) (f s).1 r.1)
  unfolding with_shard
  with_shard-Replaced key f b s v at w =
      let (r, e, p) = at_shard-Replaced (shard_idx hash b key) f b s v at w in
      (r, rw (ready_of b v) e, p)

  pub view-at :
      (b : Backend) (t : ℕ) (j : Str) (s : Shard) {i : ℕ}
      → shard_idx hash b j ≡ i
      → get_elem? b.shards i ≡ some s
      → view t j b ≡ View.view t j s
  unfolding view
  view-at b t j s e at = rw (e, at)

  -- A shard's step that changes one key changes that key alone.
  pub seen_key :
      (b : Backend) (key : Str) (s s' : Shard) (b' : Backend) (t : ℕ) (j : Str) (n : Option Entry)
      → get_elem? b.shards (shard_idx hash b key) ≡ some s
      → Replaced b (shard_idx hash b key) s' b'
      → View.view t j s' ≡ (if str_eq key j then n else View.view t j s)
      → view t j b' ≡ (if str_eq key j then n else view t j b)
  seen_key b key s s' b' t j n at r h =
      elim (Bool-cases (shard_idx hash b j == shard_idx hash b key)) [
        | inl e ↦
            r.seen t j
            ∙ rw e (
                h
                ∙ ap (λ (o : Option Entry). if str_eq key j then n else o)
                    (sym (view-at b t j s (ground arith) at)))
        | inr e ↦ r.seen t j ∙ rw e (ground (arith, str_eq_iff key j))
      ]
