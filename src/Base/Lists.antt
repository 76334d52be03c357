-- ===== src/Base/Lists.antt =====
-- Lists measured and indexed by native numbers, under the library's names.
use Prim.Native.Nat.{ℕ, zero, suc, ◌+◌, ◌-◌, ◌≤◌, ◌<◌, min}
use mathlib.Core.Path.{◌≡◌, refl, ap, ◌∙◌}
use mathlib.Core.List.{List, [], ◌∷◌, ◌++◌}
use mathlib.Core.Option.{Option, none, some}
use native.Mathlib.Omega.{arith}

module _ {ℓ} {A : Type ℓ} where
  abbrev pub length : List A → ℕ
  length [] = 0
  length (x ∷ xs) = suc (length xs)

  abbrev pub get_elem? : List A → ℕ → Option A
  get_elem? [] i = none
  get_elem? (x ∷ xs) zero = some x
  get_elem? (x ∷ xs) (suc i) = get_elem? xs i

  abbrev pub get_or : List A → ℕ → A → A
  get_or [] i d = d
  get_or (x ∷ xs) zero d = x
  get_or (x ∷ xs) (suc i) d = get_or xs i d

  -- A write out of bounds changes nothing.
  abbrev pub set : List A → ℕ → A → List A
  set [] i v = []
  set (x ∷ xs) zero v = v ∷ xs
  set (x ∷ xs) (suc i) v = x ∷ set xs i v

  abbrev pub take : ℕ → List A → List A
  take zero xs = []
  take (suc n) [] = []
  take (suc n) (x ∷ xs) = x ∷ take n xs

  abbrev pub drop : ℕ → List A → List A
  drop zero xs = xs
  drop (suc n) [] = []
  drop (suc n) (x ∷ xs) = drop n xs

  abbrev pub replicate : ℕ → A → List A
  replicate zero a = []
  replicate (suc n) a = a ∷ replicate n a

  -- `Vec::pop`: the list without its last element, and that element.
  abbrev cons_rest : A → Option (List A × A) → Option (List A × A)
  cons_rest x none = none
  cons_rest x (some (rest, last)) = some (x ∷ rest, last)

  abbrev pub pop : List A → Option (List A × A)
  pop [] = none
  pop (x ∷ []) = some ([], x)
  pop (x ∷ y ∷ xs) = cons_rest x (pop (y ∷ xs))

  -- `pop`, a change of the byte, and `push`.
  abbrev pub map_last : (A → A) → List A → List A
  map_last f [] = []
  map_last f (x ∷ []) = f x ∷ []
  map_last f (x ∷ y ∷ xs) = x ∷ map_last f (y ∷ xs)

  pub length-append : (xs ys : List A) → length (xs ++ ys) ≡ length xs + length ys
  length-append [] ys = omega arith
  length-append (x ∷ xs) ys = omega (arith, length-append xs ys)

  pub length-take : (n : ℕ) (xs : List A) → length (take n xs) ≡ min n (length xs)
  length-take zero xs = omega arith
  length-take (suc n) [] = omega arith
  length-take (suc n) (x ∷ xs) = omega (arith, length-take n xs)

  pub length-drop : (n : ℕ) (xs : List A) → length (drop n xs) ≡ length xs - n
  length-drop zero xs = omega arith
  length-drop (suc n) [] = omega arith
  length-drop (suc n) (x ∷ xs) = omega (arith, length-drop n xs)

  pub length-replicate : (n : ℕ) (a : A) → length (replicate n a) ≡ n
  length-replicate zero a = refl
  length-replicate (suc n) a = ap suc (length-replicate n a)

  pub take-append-drop : (n : ℕ) (xs : List A) → take n xs ++ drop n xs ≡ xs
  take-append-drop zero xs = refl
  take-append-drop (suc n) [] = refl
  take-append-drop (suc n) (x ∷ xs) = ap (x ∷◌) (take-append-drop n xs)

  pub take_all : (n : ℕ) (xs : List A) → length xs ≤ n → take n xs ≡ xs
  take_all zero [] h = refl
  take_all zero (x ∷ xs) h = absurd (omega arith)
  take_all (suc n) [] h = refl
  take_all (suc n) (x ∷ xs) h = ap (x ∷◌) (take_all n xs (omega arith))

  pub drop_all : (n : ℕ) (xs : List A) → length xs ≤ n → drop n xs ≡ []
  drop_all zero [] h = refl
  drop_all zero (x ∷ xs) h = absurd (omega arith)
  drop_all (suc n) [] h = refl
  drop_all (suc n) (x ∷ xs) h = drop_all n xs (omega arith)

  -- A cut inside the first part, and one past it.
  pub take-append_le : (n : ℕ) (xs ys : List A) → n ≤ length xs → take n (xs ++ ys) ≡ take n xs
  take-append_le zero xs ys h = refl
  take-append_le (suc n) [] ys h = absurd (omega arith)
  take-append_le (suc n) (x ∷ xs) ys h = ap (x ∷◌) (take-append_le n xs ys (omega arith))

  pub take-append_ge :
      (n : ℕ) (xs ys : List A) → length xs ≤ n → take n (xs ++ ys) ≡ xs ++ take (n - length xs) ys
  take-append_ge n [] ys h = ap (λ k. take k ys) (omega arith)
  take-append_ge zero (x ∷ xs) ys h = absurd (omega arith)
  take-append_ge (suc n) (x ∷ xs) ys h =
      ap (x ∷◌) (take-append_ge n xs ys (omega arith) ∙ ap (λ k. xs ++ take k ys) (omega arith))

  pub drop-append_le :
      (n : ℕ) (xs ys : List A) → n ≤ length xs → drop n (xs ++ ys) ≡ drop n xs ++ ys
  drop-append_le zero xs ys h = refl
  drop-append_le (suc n) [] ys h = absurd (omega arith)
  drop-append_le (suc n) (x ∷ xs) ys h = drop-append_le n xs ys (omega arith)

  pub drop-append_ge :
      (n : ℕ) (xs ys : List A) → length xs ≤ n → drop n (xs ++ ys) ≡ drop (n - length xs) ys
  drop-append_ge n [] ys h = ap (λ k. drop k ys) (omega arith)
  drop-append_ge zero (x ∷ xs) ys h = absurd (omega arith)
  drop-append_ge (suc n) (x ∷ xs) ys h =
      drop-append_ge n xs ys (omega arith) ∙ ap (λ k. drop k ys) (omega arith)

  pub take-append_eq : (n : ℕ) (xs ys : List A) → length xs ≡ n → take n (xs ++ ys) ≡ xs
  take-append_eq n xs ys h = take-append_le n xs ys (omega arith) ∙ take_all n xs (omega arith)

  pub drop-append_eq : (n : ℕ) (xs ys : List A) → length xs ≡ n → drop n (xs ++ ys) ≡ ys
  drop-append_eq n xs ys h =
      drop-append_ge n xs ys (omega arith) ∙ ap (λ k. drop k ys) {y = 0} (omega arith)

  pub take-take : (n m : ℕ) (xs : List A) → n ≤ m → take n (take m xs) ≡ take n xs
  take-take zero m xs h = refl
  take-take (suc n) zero xs h = absurd (omega arith)
  take-take (suc n) (suc m) [] h = refl
  take-take (suc n) (suc m) (x ∷ xs) h = ap (x ∷◌) (take-take n m xs (omega arith))

  -- What stands at an index that is in range, and on both sides of it.
  pub split_at :
      (n : ℕ) (xs : List A)
      → n < length xs
      → (front : List A) × (x : A) × (back : List A) × (xs ≡ front ++ (x ∷ back))
        × (length front ≡ n)
  split_at n [] h = elim h [ ]
  split_at zero (x ∷ xs) h = ([], x, xs, refl, refl)
  split_at (suc n) (x ∷ xs) h =
      let (front, y, back, e, l) = split_at n xs (omega arith) in
      (x ∷ front, y, back, ap (x ∷◌) e, ap suc l)

  pub take_front :
      (front : List A) (x : A) (back : List A) → take (length front) (front ++ (x ∷ back)) ≡ front
  take_front front x back = take-append_eq (length front) front (x ∷ back) refl

  pub take_front_suc :
      (front : List A) (x : A) (back : List A)
      → take (suc (length front)) (front ++ (x ∷ back)) ≡ front ++ (x ∷ [])
  take_front_suc [] x back = refl
  take_front_suc (y ∷ front) x back = ap (y ∷◌) (take_front_suc front x back)

  pub map_last-append-one :
      (f : A → A) (xs : List A) (x : A) → map_last f (xs ++ (x ∷ [])) ≡ xs ++ (f x ∷ [])
  map_last-append-one f [] x = refl
  map_last-append-one f (y ∷ []) x = refl
  map_last-append-one f (y ∷ z ∷ xs) x = ap (y ∷◌) (map_last-append-one f (z ∷ xs) x)

  pub pop-append-one : (xs : List A) (x : A) → pop (xs ++ (x ∷ [])) ≡ some (xs, x)
  pop-append-one [] x = refl
  pop-append-one (y ∷ []) x = refl
  pop-append-one (y ∷ z ∷ xs) x = ap (cons_rest y) (pop-append-one (z ∷ xs) x)
