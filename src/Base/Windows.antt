-- ===== src/Base/Windows.antt =====
-- A window of a list: drops and takes one after another.
use Prim.Native.Nat.{ℕ, zero, suc, ◌+◌, ◌-◌, ◌≤◌, ◌<◌}
use mathlib.Core.Path.{◌≡◌, refl, sym, ap, ◌∙◌}
use mathlib.Core.List.{List, [], ◌∷◌, ◌++◌}
use mathlib.Core.Option.{some}
use native.Mathlib.Omega.{arith}
use ton_labs_types.Base.Lists.{length, take, drop, get_elem?, take-take, replicate}

module _ {ℓ} {A : Type ℓ} where
  pub drop_nil : (n : ℕ) → drop {A = A} n [] ≡ []
  drop_nil zero = refl
  drop_nil (suc n) = refl

  take_nil : (n : ℕ) → take {A = A} n [] ≡ []
  take_nil zero = refl
  take_nil (suc n) = refl

  pub drop-drop : (a b : ℕ) (xs : List A) → drop a (drop b xs) ≡ drop (b + a) xs
  drop-drop a zero xs = ap (λ k. drop k xs) {x = a} (omega arith)
  drop-drop a (suc b) [] = drop_nil a ∙ sym (drop_nil (suc b + a))
  drop-drop a (suc b) (x ∷ xs) =
      drop-drop a b xs ∙ ap (λ k. drop k (x ∷ xs)) {x = suc (b + a)} (omega arith)

  pub drop-take : (i m : ℕ) (xs : List A) → drop i (take m xs) ≡ take (m - i) (drop i xs)
  drop-take zero m xs = ap (λ k. take k xs) {x = m} (omega arith)
  drop-take (suc i) zero xs = ap (λ k. take k (drop (suc i) xs)) {x = 0} (omega arith)
  drop-take (suc i) (suc m) [] = sym (take_nil (suc m - suc i))
  drop-take (suc i) (suc m) (x ∷ xs) =
      drop-take i m xs ∙ ap (λ k. take k (drop i xs)) {x = m - i} (omega arith)

  -- A window in a window.
  pub window-window :
      (n offset len start : ℕ) (xs : List A)
      → offset + n ≤ len
      → take n (drop offset (take len (drop start xs))) ≡ take n (drop (start + offset) xs)
  window-window n offset len start xs h =
      ap (take n) (drop-take offset len (drop start xs))
      ∙ take-take n (len - offset) (drop offset (drop start xs)) (omega arith)
      ∙ ap (take n) (drop-drop offset start xs)

  pub get_elem?-front :
      (front : List A) (x : A) (back : List A)
      → get_elem? (front ++ (x ∷ back)) (length front) ≡ some x
  get_elem?-front [] x back = refl
  get_elem?-front (y ∷ front) x back = get_elem?-front front x back

  pub get_elem?-second :
      (front : List A) (x y : A) (back : List A)
      → get_elem? (front ++ (x ∷ y ∷ back)) (suc (length front)) ≡ some y
  get_elem?-second [] x y back = refl
  get_elem?-second (z ∷ front) x y back = get_elem?-second front x y back

  pub take_add : (a b : ℕ) (xs : List A) → take (a + b) xs ≡ take a xs ++ take b (drop a xs)
  take_add zero b xs = ap (λ k. take k xs) {y = b} (omega arith)
  take_add (suc a) b [] =
      ap (λ k. take {A = A} k []) {y = suc (a + b)} (omega arith) ∙ sym (take_nil b)
  take_add (suc a) b (x ∷ xs) =
      ap (λ k. take k (x ∷ xs)) {y = suc (a + b)} (omega arith) ∙ ap (x ∷◌) (take_add a b xs)

  pub get_elem?-drop :
      (i : ℕ) (xs : List A)
      → i < length xs
      → (x : A) × (get_elem? xs i ≡ some x) × (drop i xs ≡ x ∷ drop (suc i) xs)
  get_elem?-drop i [] h = absurd (omega arith)
  get_elem?-drop zero (x ∷ xs) h = (x, refl, refl)
  get_elem?-drop (suc i) (x ∷ xs) h = get_elem?-drop i xs (omega arith)

  pub replicate_add : (m n : ℕ) (a : A) → replicate m a ++ replicate n a ≡ replicate (m + n) a
  replicate_add zero n a = ap (λ k. replicate k a) {x = n} (omega arith)
  replicate_add (suc m) n a =
      ap (a ∷◌) (replicate_add m n a)
      ∙ ap (λ k. replicate k a) {x = suc (m + n)} {y = suc m + n} (omega arith)

  pub take-replicate : (n m : ℕ) (a : A) → n ≤ m → take n (replicate m a) ≡ replicate n a
  take-replicate zero m a h = refl
  take-replicate (suc n) zero a h = absurd (omega arith)
  take-replicate (suc n) (suc m) a h = ap (a ∷◌) (take-replicate n m a (omega arith))
