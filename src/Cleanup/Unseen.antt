-- ===== src/Cleanup/Unseen.antt =====
-- The clean-up (src/traffik/backends/inmemory.py, src/traffik/_utils.py) cannot be seen: it removes
-- expired entries only, keeps the sampling index, and is bounded.
use traffik.Base.{
  ℕ, zero, suc, ◌+◌, ◌*◌, ◌≤◌, ◌<◌, ◌≡◌, refl, sym, ap, ◌∙◌, subst, ◌||◌, Option, none, some, List,
  [], ◌∷◌, length, get_elem?, min, ltb, ◌==◌, Bool-cases, inl, inr, arith, All,
}
use traffik.Base.Text.{Str}
use traffik.Base.Dict.{lookup}
use traffik.Result.{Returns}
use traffik.Shard.{Shard, Entry, get}
use traffik.Shard.Sampling.{IsIndexed, get-IsIndexed}
use traffik.Shard.View.{view, view-get}
use traffik.Cleanup.{
  keys_at, reap_entry, reap, sample_keys, sample_and_reap_shard, adaptive_from, cleanup_shard,
}

-- The shard after it is well formed, and shows at `t` what it showed before.
pub record Unseen (t : ℕ) (s s' : Shard) : Type 0 where
  pub indexed : IsIndexed s'
  pub seen : (k : Str) → view t k s' ≡ view t k s

-- A key that is sampled is left as `get` leaves it.
reap_entry-eq-get :
    (now : ℕ) (key : Str) (o : Option Entry) (freed : ℕ) (s : Shard)
    → lookup key s.items ≡ o
    → (reap_entry now key o freed s).1 ≡ (get now key s).1
unfolding reap_entry get
reap_entry-eq-get now key none freed s e = ground (arith, e)
reap_entry-eq-get now key (some (v, d)) freed s e = ground (arith, e)

reap_entry-le :
    (now : ℕ) (key : Str) (o : Option Entry) (freed : ℕ) (s : Shard)
    → (reap_entry now key o freed s).0 ≤ freed + 1
unfolding reap_entry
reap_entry-le now key none freed s = omega arith
reap_entry-le now key (some (v, d)) freed s = ground arith

reap-Unseen :
    (now t : ℕ) (keys : List Str) (freed : ℕ) (s : Shard)
    → now ≤ t
    → IsIndexed s
    → Unseen t s (reap now keys freed s).1 × ((reap now keys freed s).0 ≤ freed + length keys)
unfolding reap
reap-Unseen now t [] freed s h v = (record { indexed = v; seen = λ k. refl }, omega arith)
reap-Unseen now t (key ∷ keys) freed s h v =
    let r = reap_entry now key (lookup key s.items) freed s in
    let as_get : r.1 ≡ (get now key s).1 =
      reap_entry-eq-get now key (lookup key s.items) freed s refl in
    let v' : IsIndexed r.1 = subst IsIndexed (sym as_get) (get-IsIndexed now key s v) in
    let (u, le) = reap-Unseen now t keys r.0 r.1 h v' in
    (
      record {
        indexed = u.indexed;
        seen = λ k. u.seen k ∙ ap (view t k) as_get ∙ view-get now key s t k h;
      },
      omega (arith, le, reap_entry-le now key (lookup key s.items) freed s),
    )

get_elem?_lt : (xs : List Str) (i : ℕ) → i < length xs → (a : Str) × (get_elem? xs i ≡ some a)
get_elem?_lt [] i h = elim h [ ]
get_elem?_lt (x ∷ xs) zero h = (x, refl)
get_elem?_lt (x ∷ xs) (suc i) h = get_elem?_lt xs i (omega arith)

-- Positions below the length are found.
keys_at-Returns :
    (positions : List ℕ) (key_list : List Str)
    → All (λ p. p < length key_list) positions
    → Returns (keys_at positions key_list) (λ keys. length keys ≡ length positions)
unfolding keys_at
keys_at-Returns [] key_list h = ([], refl, refl)
keys_at-Returns (p ∷ positions) key_list (lt, h) =
    let (keys, e, n) = keys_at-Returns positions key_list h in
    let (key, f) = get_elem?_lt key_list p lt in (key ∷ keys, rw (f, e) refl, ap suc n)

-- What `random.sample(range(n), k=k)` documents: `k` of the numbers below `n`.
abbrev pub IsSample : (ℕ → ℕ → ℕ → List ℕ) → Type 0
IsSample sample =
    (i n k : ℕ) → k ≤ n → (length (sample i n k) ≡ k) × All (λ p. p < n) (sample i n k)

module _ (sample : ℕ → ℕ → ℕ → List ℕ) (clock : ℕ → ℕ) (size t : ℕ) (samples : IsSample sample)
    (reads : (i : ℕ) → clock i ≤ t) where
  sample_keys-Unseen :
      (i : ℕ) (l : List Str) (s : Shard)
      → IsIndexed s
      → Returns (sample_keys sample clock size i l s) (λ r. Unseen t s r.1 × (r.0.1 ≤ size))
  unfolding sample_keys
  sample_keys-Unseen i [] s v =
      (((0, 0), s), refl, (record { indexed = v; seen = λ k. refl }, omega arith))
  sample_keys-Unseen i (x ∷ l) s v =
      let n = length (x ∷ l) in
      let (len, lt) = samples i n (min size n) (omega arith) in
      let (keys, e, same) = keys_at-Returns (sample i n (min size n)) (x ∷ l) lt in
      let (u, le) = reap-Unseen (clock i) t keys 0 s (reads i) v in
      (
        ((length keys, (reap (clock i) keys 0 s).0), (reap (clock i) keys 0 s).1),
        rw (e) refl,
        (u, omega (arith, le, same, len)),
      )

  adaptive_from-Unseen :
      (threshold n i total : ℕ) (s : Shard)
      → IsIndexed s
      → Returns
          (adaptive_from (sample_and_reap_shard sample clock size) threshold n i total s)
          (λ r. Unseen t s r.1 × (r.0 ≤ total + n * size))
  unfolding adaptive_from sample_and_reap_shard
  adaptive_from-Unseen threshold zero i total s v =
      ((total, s), refl, (record { indexed = v; seen = λ k. refl }, omega arith))
  adaptive_from-Unseen threshold (suc n) i total s v =
      let (r, e, (u, le)) = sample_keys-Unseen i s.key_list s v in
      let (r', e', (u', le')) =
        adaptive_from-Unseen threshold n (i + 1) (total + r.0.1) r.1 u.indexed in
      elim (Bool-cases (r.0.0 == 0 || ltb (4 * r.0.1) (threshold * r.0.0))) [
        | inl stop ↦ ((total + r.0.1, r.1), rw (e, stop) refl, (u, bound total n r.0.1 le))
        | inr more ↦ (
          r',
          rw (e, more) e',
          (
            record { indexed = u'.indexed; seen = λ k. u'.seen k ∙ u.seen k },
            bound_rest total n r.0.1 r'.0 le le',
          ),
        )
      ]
    where
      bound : (total n freed : ℕ) → freed ≤ size → total + freed ≤ total + suc n * size
      bound total n freed h = grind arith

      bound_rest :
          (total n freed result : ℕ)
          → freed ≤ size
          → result ≤ total + freed + n * size
          → result ≤ total + suc n * size
      bound_rest total n freed result h k = grind arith

  -- The clean-up of a well-formed shard returns, whatever keys it samples: it keeps the shard well
  -- formed, what a reader sees of any key from then on is unchanged, and it frees at most five
  -- samples.
  pub cleanup_shard-Unseen :
      (s : Shard)
      → IsIndexed s
      → Returns (cleanup_shard sample clock size s) (λ r. Unseen t s r.1 × (r.0 ≤ 5 * size))
  unfolding cleanup_shard
  cleanup_shard-Unseen s v =
      let (r, e, (u, le)) = adaptive_from-Unseen 1 5 0 0 s v in (r, e, (u, omega (arith, le)))
