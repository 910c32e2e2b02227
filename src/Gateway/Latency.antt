-- ===== src/Gateway/Latency.antt =====
-- apps/voice-gateway/internal/adapters/voice/server.go, latencyWindow: the recent first-audio times.
pub mod Rank
pub mod Recent
use nova2sonici_osapp.Common.{
  ℕ, zero, suc, ◌+◌, ◌-◌, ◌*◌, ◌/◌, ◌%◌, Bool, true, false, Option, none, some, List, [], ◌∷◌, ◌++◌,
  length, is_nil, leb, ltb, if◌then◌else◌,
}

pub record Window : Type 0 where
  pub values : List ℕ
  pub next : ℕ

abbrev pub max_latency_samples : ℕ
max_latency_samples = 1024

unfoldable pub set_at : ℕ → ℕ → List ℕ → List ℕ
set_at n v [] = []
set_at zero v (x ∷ xs) = v ∷ xs
set_at (suc n) v (x ∷ xs) = x ∷ set_at n v xs

unfoldable pub add : ℕ → Window → Window
unfolding set_at
add micros w =
    if ltb (length w.values) max_latency_samples
    then record w { values = w.values ++ micros ∷ [] }
    else record { values = set_at w.next micros w.values; next = (w.next + 1) % length w.values }

-- sort.Slice on the numbers.
unfoldable pub place : ℕ → List ℕ → List ℕ
place x [] = x ∷ []
place x (y ∷ ys) = if leb x y then x ∷ y ∷ ys else y ∷ place x ys

unfoldable pub sorted : List ℕ → List ℕ
unfolding place
sorted [] = []
sorted (x ∷ xs) = place x (sorted xs)

unfoldable pub get_elem : ℕ → List ℕ → Option ℕ
get_elem n [] = none
get_elem zero (x ∷ xs) = some x
get_elem (suc n) (x ∷ xs) = get_elem n xs

abbrev pub rank : ℕ → ℕ → ℕ
rank percent n = let i = (percent * n + 99) / 100 in if ltb i 1 then 1 else i

-- A percentile in microseconds; none is a panic of the index.
unfoldable pub percentile : ℕ → Window → Option ℕ
unfolding sorted get_elem
percentile percent w = get_elem (rank percent (length w.values) - 1) (sorted w.values)

-- The percentiles 50 and 95, 0 where there are no samples.
unfoldable pub percentiles : Window → Option (ℕ × ℕ)
unfolding percentile
percentiles w = if is_nil w.values then some (0, 0) else elim (percentile 50 w) [
  | none ↦ none
  | some low ↦ elim (percentile 95 w) [ none ↦ none | some high ↦ some (low, high) ]
]
