-- ===== src/Gateway/Latency/Rank.antt =====
-- apps/voice-gateway/internal/adapters/voice/server.go, percentiles: the nearest rank.
use nova2sonici_osapp.Common.{
  ℕ, zero, suc, ◌+◌, ◌-◌, ◌*◌, ◌≤◌, ◌<◌, ◌≡◌, refl, ◌⊎◌, inl, inr, Bool, true, ◌&&◌, some, List, [],
  ◌∷◌, arith, length, all, ltb, leb, ◌==◌, if◌then◌else◌, Bool-cases,
}
use nova2sonici_osapp.Gateway.Latency.{Window, place, sorted, get_elem, rank, percentile}

-- How many numbers pass a test.
unfoldable pub count : (ℕ → Bool) → List ℕ → ℕ
count p [] = 0
count p (x ∷ xs) = (if p x then 1 else 0) + count p xs

-- The least number `v` such that `r` of the numbers are at most `v`.
record IsRanked (r : ℕ) (v : ℕ) (xs : List ℕ) : Type 0 where
  pub enough : r ≤ count (λ x. leb x v) xs
  pub least : count (λ x. ltb x v) xs < r

abbrev ascending : List ℕ → Bool
ascending [] = true
ascending (x ∷ xs) = all (leb x) xs && ascending xs

all-place : (p : ℕ → Bool) (x : ℕ) (ys : List ℕ) → (all p (place x ys)) ≡ (p x && all p ys)
unfolding place
all-place p x [] = refl
all-place p x (y ∷ ys) = ground (arith, all-place p x ys)

count-place : (p : ℕ → Bool) (x : ℕ) (ys : List ℕ) → count p (place x ys) ≡ count p (x ∷ ys)
unfolding place count
count-place p x [] = refl
count-place p x (y ∷ ys) = ground (arith, count-place p x ys)

all-leb_trans :
    (x y : ℕ) (ys : List ℕ) → leb x y ≡ true → all (leb y) ys ≡ true → all (leb x) ys ≡ true
all-leb_trans x y [] le h = refl
all-leb_trans x y (z ∷ ys) le h = ground (arith, all-leb_trans x y ys le)

place-ascending : (x : ℕ) (ys : List ℕ) → ascending ys ≡ true → ascending (place x ys) ≡ true
unfolding place
place-ascending x [] h = refl
place-ascending x (y ∷ ys) h =
    ground (arith, all-leb_trans x y ys, all-place (leb y) x ys, place-ascending x ys)

sorted-ascending : (xs : List ℕ) → ascending (sorted xs) ≡ true
unfolding sorted
sorted-ascending [] = refl
sorted-ascending (x ∷ xs) = place-ascending x (sorted xs) (sorted-ascending xs)

count-sorted : (p : ℕ → Bool) (xs : List ℕ) → count p (sorted xs) ≡ count p xs
unfolding sorted count
count-sorted p [] = refl
count-sorted p (x ∷ xs) = ground (arith, count-place p x (sorted xs), count-sorted p xs)

length-place : (x : ℕ) (ys : List ℕ) → length (place x ys) ≡ suc (length ys)
unfolding place
length-place x [] = refl
length-place x (y ∷ ys) = ground (arith, length-place x ys)

length-sorted : (xs : List ℕ) → length (sorted xs) ≡ length xs
unfolding sorted
length-sorted [] = refl
length-sorted (x ∷ xs) = omega (arith, length-place x (sorted xs), length-sorted xs)

get_elem-some : (i : ℕ) (xs : List ℕ) → i < length xs → (v : ℕ) × (get_elem i xs ≡ some v)
unfolding get_elem
get_elem-some i [] h = absurd (omega arith)
get_elem-some zero (x ∷ xs) h = (x, refl)
get_elem-some (suc i) (x ∷ xs) h = get_elem-some i xs (omega arith)

get_elem-all :
    (p : ℕ → Bool) (i : ℕ) (xs : List ℕ) (v : ℕ)
    → all p xs ≡ true
    → get_elem i xs ≡ some v
    → p v ≡ true
unfolding get_elem
get_elem-all p i [] v h e = cc
get_elem-all p zero (x ∷ xs) v h e = let same : x ≡ v = ground arith in rw (← same) (ground arith)
get_elem-all p (suc i) (x ∷ xs) v h e = get_elem-all p i xs v (ground arith) e

none-below : (x : ℕ) (ys : List ℕ) → all (leb x) ys ≡ true → count (λ y. ltb y x) ys ≡ 0
unfolding count
none-below x [] h = refl
none-below x (y ∷ ys) h = ground (arith, none-below x ys)

get_elem-IsRanked :
    (i : ℕ) (ys : List ℕ) (v : ℕ)
    → ascending ys ≡ true
    → get_elem i ys ≡ some v
    → IsRanked (suc i) v ys
unfolding get_elem count
get_elem-IsRanked i [] v a e = cc
get_elem-IsRanked zero (x ∷ ys) v a e =
    let same : x ≡ v = ground arith in
    let below = none-below x ys (ground arith) in
    rw (← same) (record { enough = ground arith; least = ground (arith, below) })
get_elem-IsRanked (suc i) (x ∷ ys) v a e =
    let r = get_elem-IsRanked i ys v (ground arith) e in
    let le = get_elem-all (leb x) i ys v (ground arith) e in
    record { enough = ground (arith, r.enough, le); least = ground (arith, r.least) }

rank-bound : (percent n : ℕ) → percent ≤ 100 → 0 < n → rank percent n - 1 < n
rank-bound percent n le some_samples =
    let most : percent * n ≤ 100 * n = times_le percent n le in ground (arith, most)
  where
    times_le : (p n : ℕ) → p ≤ 100 → p * n ≤ 100 * n
    times_le p zero h = omega arith
    times_le p (suc n) h = omega (arith, times_le p n h)

-- One of the numbers, which `percent` hundredths of them are at most, and which fewer are below, if any.
pub record IsPercentile (percent : ℕ) (v : ℕ) (xs : List ℕ) : Type 0 where
  pub sample : 0 < count (λ x. x == v) xs
  pub enough : percent * length xs ≤ 100 * count (λ x. leb x v) xs
  pub least : (100 * count (λ x. ltb x v) xs < percent * length xs) ⊎ (count (λ x. ltb x v) xs ≡ 0)

count-split :
    (v : ℕ) (xs : List ℕ)
    → count (λ x. leb x v) xs ≡ count (λ x. ltb x v) xs + count (λ x. x == v) xs
unfolding count
count-split v [] = refl
count-split v (x ∷ xs) = ground (arith, count-split v xs)

IsRanked-IsPercentile :
    (percent v : ℕ) (xs : List ℕ)
    → IsRanked (rank percent (length xs)) v xs
    → IsPercentile percent v xs
IsRanked-IsPercentile percent v xs r =
    let enough = r.enough in
    let least = r.least in
    let split = count-split v xs in
    record {
      sample = omega (arith, enough, least, split);
      enough = ground (arith, enough);
      least = elim (Bool-cases (ltb 0 (percent * length xs))) [
        | inl some_percent ↦ inl (ground (arith, least))
        | inr none_at_all ↦ inr (ground (arith, least))
      ];
    }

ranked :
    (percent : ℕ) (w : Window)
    → percent ≤ 100
    → 0 < length w.values
    → (v : ℕ) × (percentile percent w ≡ some v)
      × IsRanked (rank percent (length w.values)) v w.values
unfolding percentile
ranked percent w le some_samples =
    let n = length w.values in
    let i = rank percent n - 1 in
    let bound : i < length (sorted w.values) = rank-lt in
    let (v, found) = get_elem-some i (sorted w.values) bound in
    let r = get_elem-IsRanked i (sorted w.values) v (sorted-ascending w.values) found in
    let index : suc i ≡ rank percent n = ground arith in
    (
      v,
      found,
      rw (← index) (record {
        enough = rw (← count-sorted (λ x. leb x v) w.values) r.enough;
        least = rw (← count-sorted (λ x. ltb x v) w.values) r.least;
      }),
    )
  where
    rank-lt : rank percent (length w.values) - 1 < length (sorted w.values)
    rank-lt = rw (length-sorted w.values) (rank-bound percent (length w.values) le some_samples)

-- A percentile up to the hundredth of a window that is not empty exists, so its index does not panic. It
-- is one of the samples; at least the percentage of the samples are at most it, and less than the
-- percentage are below it, or none.
pub percentile-IsPercentile :
    (percent : ℕ) (w : Window)
    → percent ≤ 100
    → 0 < length w.values
    → (v : ℕ) × (percentile percent w ≡ some v) × IsPercentile percent v w.values
percentile-IsPercentile percent w le some_samples =
    let (v, found, r) = ranked percent w le some_samples in
    (v, found, IsRanked-IsPercentile percent v w.values r)
