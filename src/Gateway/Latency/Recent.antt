-- ===== src/Gateway/Latency/Recent.antt =====
-- apps/voice-gateway/internal/adapters/voice/server.go, latencyWindow.add: the ring is a queue.
use nova2sonici_osapp.Common.{
  ℕ, zero, suc, ◌+◌, ◌%◌, ◌≤◌, ◌<◌, ◌≡◌, refl, sym, ap, ◌∙◌, inl, inr, false, List, [], ◌∷◌, ◌++◌,
  arith, length, length-append, take, drop, ltb, if◌then◌else◌, Bool-cases,
}
use mathlib.Core.List.{append_assoc, append-nil}
use nova2sonici_osapp.Gateway.Latency.{Window, max_latency_samples, set_at, add}

-- A queue of at most 1024 samples, the oldest first: a sample that finds it full takes the place of
-- the oldest.
unfoldable pub enqueue : ℕ → List ℕ → List ℕ
enqueue v xs = (if ltb (length xs) max_latency_samples then xs else drop 1 xs) ++ v ∷ []

-- The samples of a window from the oldest on.
unfoldable pub recent : Window → List ℕ
recent w = drop w.next w.values ++ take w.next w.values

pub record IsWindow (w : Window) : Type 0 where
  pub bounded : length w.values ≤ max_latency_samples
  pub inside : w.next < max_latency_samples
  pub filling : length w.values < max_latency_samples → w.next ≡ 0

length-set_at : (n v : ℕ) (xs : List ℕ) → length (set_at n v xs) ≡ length xs
unfolding set_at
length-set_at n v [] = refl
length-set_at zero v (x ∷ xs) = refl
length-set_at (suc n) v (x ∷ xs) = omega (arith, length-set_at n v xs)

drop-set_at : (n v : ℕ) (xs : List ℕ) → drop (suc n) (set_at n v xs) ≡ drop (suc n) xs
unfolding set_at
drop-set_at n v [] = refl
drop-set_at zero v (x ∷ xs) = refl
drop-set_at (suc n) v (x ∷ xs) = drop-set_at n v xs

take-set_at :
    (n v : ℕ) (xs : List ℕ) → n < length xs → take (suc n) (set_at n v xs) ≡ take n xs ++ v ∷ []
unfolding set_at
take-set_at n v [] h = absurd (omega arith)
take-set_at zero v (x ∷ xs) h = refl
take-set_at (suc n) v (x ∷ xs) h = ap (λ t. x ∷ t) (take-set_at n v xs (omega arith))

take-all : (n : ℕ) (xs : List ℕ) → n ≡ length xs → take n xs ≡ xs
take-all zero [] h = refl
take-all zero (x ∷ xs) h = absurd (omega arith)
take-all (suc n) [] h = absurd (omega arith)
take-all (suc n) (x ∷ xs) h = ap (λ t. x ∷ t) (take-all n xs (omega arith))

drop-all : (n : ℕ) (xs : List ℕ) → n ≡ length xs → drop n xs ≡ []
drop-all zero [] h = refl
drop-all zero (x ∷ xs) h = absurd (omega arith)
drop-all (suc n) [] h = refl
drop-all (suc n) (x ∷ xs) h = drop-all n xs (omega arith)

drop_one-drop :
    (n : ℕ) (xs t : List ℕ) → n < length xs → drop 1 (drop n xs ++ t) ≡ drop (suc n) xs ++ t
drop_one-drop n [] t h = absurd (omega arith)
drop_one-drop zero (x ∷ xs) t h = refl
drop_one-drop (suc n) (x ∷ xs) t h = drop_one-drop n xs t (omega arith)

length-rotated : (n : ℕ) (xs : List ℕ) → length (drop n xs) + length (take n xs) ≡ length xs
length-rotated n [] = length-nil n
  where
    length-nil : (n : ℕ) → length (drop {A = ℕ} n []) + length (take {A = ℕ} n []) ≡ 0
    length-nil zero = omega arith
    length-nil (suc n) = omega arith
length-rotated zero (x ∷ xs) = omega arith
length-rotated (suc n) (x ∷ xs) = omega (arith, length-rotated n xs)

-- Adding to a full window.
module _ (v n : ℕ) (xs : List ℕ) (full : length xs ≡ max_latency_samples)
    (inside : n < max_latency_samples) where
  recent-turn :
      (k : ℕ)
      → k ≡ (n + 1) % max_latency_samples
      → drop k (set_at n v xs) ++ take k (set_at n v xs) ≡ drop (suc n) xs ++ take n xs ++ v ∷ []
  recent-turn k next = elim (Bool-cases (ltb (suc n) max_latency_samples)) [
    | inl on ↦
        let same : k ≡ suc n = ground arith in
        rw (same, drop-set_at n v xs, take-set_at n v xs (omega (arith, full)))
          (sym (append_assoc (drop (suc n) xs) (take n xs) (v ∷ [])))
    | inr around ↦
        let last : suc n ≡ max_latency_samples = ground arith in
        let same : k ≡ 0 = ground arith in
        let all_new : set_at n v xs ≡ take n xs ++ v ∷ [] =
          sym (take-all (suc n) (set_at n v xs) (omega (arith, full, length-set_at n v xs)))
          ∙ take-set_at n v xs (omega (arith, full)) in
        rw (same, append-nil (set_at n v xs), drop-all (suc n) xs (omega (arith, full))) all_new
  ]

-- Adding a sample is putting it into the queue of the recent ones.
recent-add :
    (v : ℕ) (w : Window)
    → IsWindow w
    → (recent (add v w) ≡ enqueue v (recent w)) × IsWindow (add v w)
unfolding recent add enqueue
recent-add v w ok = elim (Bool-cases (ltb (length w.values) max_latency_samples)) [
  | inl room ↦
      let start : w.next ≡ 0 = ok.filling (ground arith) in
      let made : add v w ≡ record { values = w.values ++ v ∷ []; next = 0 } =
        rw (add, room, ← start) refl in
      (
        rw (made, start, append-nil w.values, append-nil (w.values ++ v ∷ []), room) refl,
        rw made (record {
          bounded = ground (arith, length-append w.values (v ∷ []));
          inside = omega arith;
          filling = λ _. refl;
        }),
      )
  | inr none_left ↦
      let full : length w.values ≡ max_latency_samples = ground (arith, ok.bounded) in
      let k : ℕ = (w.next + 1) % max_latency_samples in
      let made : add v w ≡ record { values = set_at w.next v w.values; next = k } =
        rw (add, none_left, full) refl in
      let old : length (recent w) ≡ max_latency_samples =
        length-append (drop w.next w.values) (take w.next w.values)
        ∙ length-rotated w.next w.values
        ∙ full in
      let test : ltb (length (recent w)) max_latency_samples ≡ false = rw old refl in
      (
        rw (made, recent-turn v w.next w.values full ok.inside k refl)
            (rw test (
              ap (λ t. t ++ v ∷ [])
                (sym (
                  drop_one-drop w.next w.values (take w.next w.values)
                    (omega (arith, full, ok.inside)))))),
        rw made (record {
          bounded = omega (arith, full, length-set_at w.next v w.values);
          inside = omega arith;
          filling = λ less. absurd (omega (arith, full, length-set_at w.next v w.values, less));
        }),
      )
]

unfoldable pub adds : List ℕ → Window → Window
unfolding add
adds [] w = w
adds (v ∷ vs) w = adds vs (add v w)

unfoldable pub enqueues : List ℕ → List ℕ → List ℕ
unfolding enqueue
enqueues [] xs = xs
enqueues (v ∷ vs) xs = enqueues vs (enqueue v xs)

-- A window that keeps at most 1024 samples, and has its index at 0 until it is full, keeps to that as
-- samples are added, and from its oldest sample on it reads like the queue that they are put into.
pub recent-adds :
    (vs : List ℕ) (w : Window)
    → IsWindow w
    → (recent (adds vs w) ≡ enqueues vs (recent w)) × IsWindow (adds vs w)
unfolding adds enqueues
recent-adds [] w ok = (refl, ok)
recent-adds (v ∷ vs) w ok =
    let (same, ok') = recent-add v w ok in
    let (same', ok'') = recent-adds vs (add v w) ok' in (same' ∙ ap (enqueues vs) same, ok'')
