-- ===== src/InMemory/MultiGet.antt =====
-- `multi_get` of `InMemoryBackend` (src/traffik/backends/inmemory.py): the batch, read shard by
-- shard, agrees with reading its keys one by one.
use traffik.Base.{
  ℕ, ◌<◌, ◌≤◌, ◌≡◌, refl, ap, ◌∙◌, sym, Bool, true, ◌&&◌, Option, some, List, [], ◌∷◌, map, arith,
  ◌==◌, ==_iff, if◌then◌else◌, Bool-cases, inl, inr, get_elem?, get_elem?_of_lt,
}
use traffik.Base.Int.{ℤ}
use traffik.Base.Text.{Str, str_eq_iff}
use traffik.Base.Dict.{Dict, lookup, insert, lookup-insert}
use traffik.Result.{ok, Returns}
use traffik.Shard
use traffik.Shard.{Shard, Entry}
use traffik.Shard.Sampling.{IsIndexed, get-IsIndexed}
use traffik.Shard.View
use traffik.Shard.View.{live, shown_entry}
use traffik.InMemory.{
  Backend, shard_idx, mod_int, on_shard, shard_indexes, read_keys, collect, multi_get_shards,
  multi_get,
}
use traffik.InMemory.Groups.{elem, has_key, elem-shard_indexes, shard_indexes-lt, has_key-on_shard}
use traffik.InMemory.Methods.{Unchanged}
use traffik.InMemory.Views.{IsValid, Replaced, view, view-at, at_shard-Replaced, ready_of}

abbrev has : Str → List Str → Bool
has = has_key (λ k. k)

module _ (now : ℕ) where
  read_keys-IsIndexed :
      (ks : List Str) (results : Dict (Option Str)) (s : Shard)
      → IsIndexed s
      → IsIndexed (read_keys now ks results s).1
  unfolding read_keys
  read_keys-IsIndexed [] results s v = v
  read_keys-IsIndexed (k ∷ ks) results s v =
      read_keys-IsIndexed ks _ (Shard.get now k s).1 (get-IsIndexed now k s v)

  view-read_keys :
      (ks : List Str) (results : Dict (Option Str)) (s : Shard) (t : ℕ) (j : Str)
      → now ≤ t
      → View.view t j (read_keys now ks results s).1 ≡ View.view t j s
  unfolding read_keys
  view-read_keys [] results s t j h = refl
  view-read_keys (k ∷ ks) results s t j h =
      view-read_keys ks _ (Shard.get now k s).1 t j h ∙ View.view-get now k s t j h

  lookup-read_keys :
      (ks : List Str) (results : Dict (Option Str)) (s : Shard) (j : Str)
      → lookup j (read_keys now ks results s).0
        ≡ (if has j ks then some (shown_entry (View.view now j s)) else lookup j results)
  unfolding read_keys
  lookup-read_keys [] results s j = refl
  lookup-read_keys (k ∷ ks) results s j =
      let value : Option Str = (Shard.get now k s).0 in
      ground (
        arith,
        lookup-read_keys ks (insert k value results) (Shard.get now k s).1 j,
        lookup-insert k j value results,
        View.view-get now k s now j,
        View.get-eq-view now k s,
        str_eq_iff k j,
      )

collect-map :
    (f : Str → Option Str) (results : Dict (Option Str)) (ks : List Str)
    → ((j : Str) → has j ks ≡ true → lookup j results ≡ some (f j))
    → collect results ks ≡ ok (map f ks)
unfolding collect
collect-map f results [] h = refl
collect-map f results (k ∷ ks) h =
    rw (h k (ground (arith, str_eq_iff k k)), collect-map f results ks (λ j e. h j (ground arith)))
      refl

module _ (hash : Str → ℤ) (now : ℕ) (b₀ : Backend) (keys : List Str) where
  abbrev groups : ℕ → List Str
  groups i = on_shard hash (λ k. k) i b₀ keys

  abbrev values_of : Backend → Str → Option Str
  values_of b j = shown_entry (view hash now j b)

  -- What the loop over the shards `is` has read, and that it changed nothing.
  record Read (is : List ℕ) (results : Dict (Option Str)) (b : Backend)
      (r : Dict (Option Str) × Backend) : Type 0 where
    unchanged : Unchanged hash now b r.1
    read :
        (j : Str)
        → lookup j r.0 ≡ (
            if elem (shard_idx hash b₀ j) is && has j keys
            then some (values_of b j)
            else lookup j results)

  module _ (i : ℕ) (b b' : Backend) (s : Shard) (results : Dict (Option Str))
      (same : b.number_of_shards ≡ b₀.number_of_shards) (at : get_elem? b.shards i ≡ some s)
      (p : Replaced hash b i (read_keys now (groups i) results s).1 b') where
    here : (j : Str) → (shard_idx hash b₀ j == i) ≡ true → shard_idx hash b j ≡ i
    here j e = ap (mod_int (hash j)) same ∙ (==_iff (shard_idx hash b₀ j) i).0 e

    first-Unchanged : Unchanged hash now b b'
    first-Unchanged = record {
      valid = p.valid;
      seen = λ t j h. elim (Bool-cases (shard_idx hash b j == i)) [
        | inl e ↦
            p.seen t j
            ∙ rw e (
                view-read_keys now (groups i) results s t j h
                ∙ sym (view-at hash b t j s ((==_iff (shard_idx hash b j) i).0 e) at))
        | inr e ↦ p.seen t j ∙ rw e refl
      ];
    }

    first_read :
        (j : Str)
        → lookup j (read_keys now (groups i) results s).0 ≡ (
            if shard_idx hash b₀ j == i && has j keys
            then some (values_of b j)
            else lookup j results)
    first_read j = elim (Bool-cases (shard_idx hash b₀ j == i)) [
      | inl e ↦
          lookup-read_keys now (groups i) results s j
          ∙ rw (has_key-on_shard hash b₀ (λ k. k) i j keys, e, view-at hash b now j s (here j e) at)
              refl
      | inr e ↦
          lookup-read_keys now (groups i) results s j
          ∙ rw (has_key-on_shard hash b₀ (λ k. k) i j keys, e) refl
    ]

    rest-Read :
        (is : List ℕ) (results' : Dict (Option Str)) (r : Dict (Option Str) × Backend)
        → results' ≡ (read_keys now (groups i) results s).0
        → Read is results' b' r
        → Read (i ∷ is) results b r
    rest-Read is results' r a w = record {
      unchanged = record {
        valid = w.unchanged.valid;
        seen = λ t j h. w.unchanged.seen t j h ∙ first-Unchanged.seen t j h;
      };
      read =
          λ j. w.read j ∙ ground (arith, a, first_read j, first-Unchanged.seen now j (omega arith));
    }

  multi_get_shards-Read :
      (is : List ℕ) (results : Dict (Option Str)) (b : Backend)
      → IsValid b
      → b.number_of_shards ≡ b₀.number_of_shards
      → ((i : ℕ) → elem i is ≡ true → i < b₀.number_of_shards)
      → Returns (multi_get_shards hash now groups is results b) (Read is results b)
  unfolding multi_get_shards
  multi_get_shards-Read [] results b v same lt = (
    (results, b),
    refl,
    record { unchanged = record { valid = v; seen = λ t j h. refl }; read = λ j. refl },
  )
  multi_get_shards-Read (i ∷ is) results b v same lt =
      let (s, at) = get_elem?_of_lt b.shards i (omega (arith, lt i (ground arith), v.count)) in
      let (r, e, (a, p)) =
        at_shard-Replaced hash i (read_keys now (groups i) results) b s v at
          (read_keys-IsIndexed now (groups i) results s (v.indexed i s at)) in
      let (r', e', w) =
        multi_get_shards-Read is r.0 r.1 p.valid (p.same_count ∙ same)
          (λ k h. lt k (ground arith)) in
      (r', rw e e', rest-Read i b r.1 s results same at p is r.0 r' a w)

-- On a well-formed backend `multi_get` returns the texts of the live values of its keys, in the order
-- of the keys, and changes nothing that can be seen from then on.
pub multi_get_lem :
    (hash : Str → ℤ) (now : ℕ) (keys : List Str) (b : Backend)
    → IsValid b
    → Returns
        (multi_get hash now keys b)
        (λ r. (r.0 ≡ map (λ k. shown_entry (view hash now k b)) keys) × Unchanged hash now b r.1)
unfolding multi_get
multi_get_lem hash now [] b v =
    (([], b), rw (ready_of b v) refl, (refl, record { valid = v; seen = λ t j h. refl }))
multi_get_lem hash now (k ∷ ks) b v =
    let keys = k ∷ ks in
    let (r, e, w) =
      multi_get_shards-Read hash now b keys (shard_indexes hash (λ k. k) b keys) [] b v refl
        (shard_indexes-lt hash b (λ k. k) keys v.nonzero) in
    let all =
      collect-map (λ k. shown_entry (view hash now k b)) r.0 keys
        (λ j h. w.read j ∙ rw (elem-shard_indexes hash b (λ k. k) j keys h, h) refl) in
    ((_, r.1), rw (ready_of b v, e, all) refl, (refl, w.unchanged))
