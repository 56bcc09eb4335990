-- ===== src/FixedWindow/Subsecond.antt =====
-- Runs of `FixedWindowStrategy` (src/traffik/strategies/fixed_window.py) with a window of less than a
-- second: the start of the window is stored as text beside the counter and read back.
use native.Mathlib.Nat.{zero-add}
use traffik.Base.{
  ℕ, ◌+◌, ◌*◌, ◌≤◌, ◌<◌, ◌≡◌, refl, ◌∙◌, ap, true, false, Option, some, List, [], ◌∷◌, arith,
}
use traffik.Base.Int.{pos, int_laws}
use traffik.Base.Text.{Str, str_eq, str_eq_refl, str_eq-append, codes, str_of_int}
use traffik.Base.Text.RoundTrip.{int_of_str-str_of_int}
use traffik.Result.{Returns}
use traffik.Rate.{Rate, is_subsecond, unlimited}
use traffik.Shard.{Entry, Value, number, text, as_int, shown, deadline}
use traffik.Shard.View.{live, shown_entry, counted, count_of, incremented_ttl}
use traffik.Store.{Store}
use traffik.InMemory.MultiSet.{assigned, override}
use traffik.FixedWindow.{
  Reading, base_key, counter_key, window_start_key, ttl_seconds, window_start, verdict,
  in_current_window, hit,
}
use traffik.FixedWindow.Count.{Request, run, expected, due, verdict-due}

-- Every request gets the lock and falls in the clock's window that begins at `start`; the backend's
-- clock does not run backwards, and stays below `end`.
abbrev pub InWindow : Rate → ℕ → ℕ → ℕ → List Request → Type 0
InWindow rate start now end [] = Unit
InWindow rate start now end ((cost, at) ∷ rest) =
    (at.acquired ≡ true)
    × (window_start rate at.wall ≡ start)
    × (now ≤ at.first)
    × (at.first ≤ at.second)
    × (at.second < end)
    × InWindow rate start at.second end rest

pub counter-ne-start : (key : Str) → str_eq (counter_key key) (window_start_key key) ≡ false
unfolding str_eq
counter-ne-start key = str_eq-append (base_key key) (codes ":counter") (codes ":start")

pub start-ne-counter : (key : Str) → str_eq (window_start_key key) (counter_key key) ≡ false
unfolding str_eq
start-ne-counter key = str_eq-append (base_key key) (codes ":start") (codes ":counter")

counted_pos : (total cost : ℕ) → counted (pos cost) (some (pos total)) ≡ pos (total + cost)
counted_pos total cost = omega int_laws

as_int_number : (n : ℕ) → as_int (number (pos n)) ≡ some (pos n)
unfolding as_int
as_int_number n = refl

as_int_text : (n : ℕ) → as_int (text (str_of_int (pos n))) ≡ some (pos n)
unfolding as_int
as_int_text n = int_of_str-str_of_int (pos n)

in_current_window-str : (start : ℕ) → in_current_window start (some (str_of_int (pos start))) ≡ true
unfolding in_current_window
in_current_window-str start = rw (int_of_str-str_of_int (pos start)) (ground arith)

assigned_start :
    (key a b : Str)
    → assigned (window_start_key key) ((window_start_key key, a) ∷ (counter_key key, b) ∷ [])
      ≡ some a
assigned_start key a b = ground (arith, counter-ne-start key, str_eq_refl (window_start_key key))

assigned_counter :
    (key a b : Str)
    → assigned (counter_key key) ((window_start_key key, a) ∷ (counter_key key, b) ∷ []) ≡ some b
assigned_counter key a b = ground (arith, str_eq_refl (counter_key key))

shown_text : (t : Str) (d : Option ℕ) → shown_entry (some (text t, d)) ≡ some t
unfolding shown
shown_text t d = refl

-- The counter's entry after one more request.
counted_value :
    (value : Value) (total cost : ℕ) (d : Option ℕ)
    → as_int value ≡ some (pos total)
    → counted (pos cost) (count_of (some (value, d))) ≡ pos (total + cost)
counted_value value total cost d h = ap (counted (pos cost)) h ∙ counted_pos total cost

incremented_value :
    (now ttl total cost end : ℕ) (value : Value)
    → as_int value ≡ some (pos total)
    → incremented_ttl now (pos cost) ttl (some (value, some end))
      ≡ (number (pos (total + cost)), some end)
incremented_value now ttl total cost end value h = rw (h, counted_pos total cost) refl

module _ (store : Store) (key : Str) (rate : Rate) (limited : unlimited rate ≡ false)
    (short : is_subsecond rate ≡ true) (start : ℕ) where
  open store use {State, IsValid, view, get_lem, increment_with_ttl_lem, multi_set_lem}

  -- Until `end` the stored window is the current one, and the counter holds `total`.
  record Counts (now total end : ℕ) (s : State) : Type 0 where
    valid : IsValid s
    window :
        (t : ℕ)
        → now ≤ t
        → view t (window_start_key key) s ≡ live t (some (text (str_of_int (pos start)), some end))
    value : Value
    counted_total : as_int value ≡ some (pos total)
    counter : (t : ℕ) → now ≤ t → view t (counter_key key) s ≡ live t (some (value, some end))

  hit-Counts :
      (now total end cost : ℕ) (at : Reading) (s : State)
      → Counts now total end s
      → at.acquired ≡ true
      → window_start rate at.wall ≡ start
      → now ≤ at.first
      → at.first ≤ at.second
      → at.second < end
      → Returns
          (hit store key rate cost at s)
          (λ r. (r.0 ≡ due rate at.wall (total + cost)) × Counts at.second (total + cost) end r.1)
  unfolding hit
  hit-Counts now total end cost at s c got win le le' lt =
      let stored : view at.first (window_start_key key) s
          ≡ some (text (str_of_int (pos start)), some end) =
        c.window at.first le ∙ ground arith in
      let (r, e, (a, v, u)) = get_lem at.first (window_start_key key) s c.valid in
      let same : in_current_window (window_start rate at.wall) r.0 ≡ true =
        ap (λ (w : ℕ). in_current_window w r.0) win
        ∙ ap (in_current_window start) (a ∙ ap shown_entry stored ∙ shown_text _ (some end))
        ∙ in_current_window-str start in
      let (r', e', (a', v', u')) =
        increment_with_ttl_lem at.second (counter_key key) (pos cost) (ttl_seconds rate) r.1 v in
      let seen : view at.second (counter_key key) r.1 ≡ some (c.value, some end) =
        u at.second (counter_key key) le' ∙ c.counter at.second (omega arith) ∙ ground arith in
      (
        (verdict rate at.wall r'.0, r'.1),
        rw (limited, short, got, e, same, e') refl,
        (
          ap (verdict rate at.wall) (
                a'
                ∙ ap (λ (o : Option Entry). counted (pos cost) (count_of o)) seen
                ∙ counted_value c.value total cost (some end) c.counted_total)
              ∙ verdict-due rate at.wall (total + cost),
          record {
            valid = v';
            window = λ t h.
                u' t (window_start_key key) h
                ∙ rw (counter-ne-start key)
                    (u t (window_start_key key) (omega arith) ∙ c.window t (omega arith));
            value = number (pos (total + cost));
            counted_total = as_int_number (total + cost);
            counter = λ t h.
                u' t (counter_key key) h
                ∙ rw (str_eq_refl (counter_key key), seen)
                    (ap (λ (o : Entry). live t (some o))
                      (incremented_value at.second (ttl_seconds rate) total cost end c.value
                        c.counted_total));
          },
        ),
      )

  run_from :
      (requests : List Request) (now total end : ℕ) (s : State)
      → Counts now total end s
      → InWindow rate start now end requests
      → Returns
          (run store key rate requests s)
          (λ r. (r.0 ≡ expected rate total requests) × IsValid r.1)
  unfolding run expected
  run_from [] now total end s c h = (([], s), refl, (refl, c.valid))
  run_from ((cost, at) ∷ rest) now total end s c (got, win, le, le', lt, h) =
      let (r, e, (a, c')) = hit-Counts now total end cost at s c got win le le' lt in
      let (r', e', (a', v)) = run_from rest at.second (total + cost) end r.1 c' h in
      ((r.0 ∷ r'.0, r'.1), rw (e, e') refl, (cc, v))

  -- The request that opens a window writes its start and its count.
  opens :
      (cost : ℕ) (at : Reading) (s : State)
      → IsValid s
      → at.acquired ≡ true
      → window_start rate at.wall ≡ start
      → at.first ≤ at.second
      → in_current_window start (shown_entry (view at.first (window_start_key key) s)) ≡ false
      → Returns (hit store key rate cost at s) (λ r.
        (r.0 ≡ due rate at.wall cost)
        × Counts at.second cost (at.second + 1000 * ttl_seconds rate) r.1)
  unfolding hit
  opens cost at s v got win le fresh =
      let (r, e, (a, v', u)) = get_lem at.first (window_start_key key) s v in
      let other : in_current_window (window_start rate at.wall) r.0 ≡ false =
        ap (λ (w : ℕ). in_current_window w r.0) win ∙ ap (in_current_window start) a ∙ fresh in
      let (r', e', (v'', u')) =
        multi_set_lem at.second
          ((window_start_key key, str_of_int (pos (window_start rate at.wall)))
            ∷ (counter_key key, str_of_int (pos cost))
            ∷ [])
          (some (ttl_seconds rate)) r.1 v' in
      (
        (verdict rate at.wall (pos cost), r'.1),
        rw (limited, short, got, e, other, e') refl,
        (
          verdict-due rate at.wall cost,
          record {
            valid = v'';
            window = λ t h.
                u' t (window_start_key key)
                ∙ ap
                    (λ (o : Option Str).
                      override t (deadline at.second (some (ttl_seconds rate))) o
                        (view t (window_start_key key) r.1))
                    (assigned_start key (str_of_int (pos (window_start rate at.wall)))
                      (str_of_int (pos cost)))
                ∙ ap
                    (λ (w : ℕ). live t (
                      some (text (str_of_int (pos w)), some (at.second + 1000 * ttl_seconds rate))))
                    win;
            value = text (str_of_int (pos cost));
            counted_total = as_int_text cost;
            counter = λ t h.
                u' t (counter_key key)
                ∙ ap
                    (λ (o : Option Str).
                      override t (deadline at.second (some (ttl_seconds rate))) o
                        (view t (counter_key key) r.1))
                    (assigned_counter key (str_of_int (pos (window_start rate at.wall)))
                      (str_of_int (pos cost)));
          },
        ),
      )

  -- From a state whose live start is not that of the current window, the requests of one window of
  -- less than a second that get the lock are answered by the running sum of their costs, while the
  -- two keys live: each whose sum exceeds the limit waits for the rest of the window, and the others
  -- do not wait.
  pub subsecond-eq-expected :
      (cost : ℕ) (at : Reading) (rest : List Request) (s : State)
      → IsValid s
      → at.acquired ≡ true
      → window_start rate at.wall ≡ start
      → at.first ≤ at.second
      → in_current_window start (shown_entry (view at.first (window_start_key key) s)) ≡ false
      → InWindow rate start at.second (at.second + 1000 * ttl_seconds rate) rest
      → Returns
          (run store key rate ((cost, at) ∷ rest) s)
          (λ r. (r.0 ≡ expected rate 0 ((cost, at) ∷ rest)) × IsValid r.1)
  unfolding run expected
  subsecond-eq-expected cost at rest s v got win le fresh h =
      let (r, e, (a, c)) = opens cost at s v got win le fresh in
      let (r', e', (a', v')) =
        run_from rest at.second cost (at.second + 1000 * ttl_seconds rate) r.1 c h in
      ((r.0 ∷ r'.0, r'.1), rw (e, e') refl, (rw (a, a', zero-add cost) refl, v'))
