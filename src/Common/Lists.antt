-- ===== src/Common/Lists.antt =====
-- Lists measured, cut and indexed by native numbers, under the library's names, and bytes.
use Prim.Native.Nat.{ℕ, zero, suc, ◌+◌, ◌-◌, ◌≤◌, ◌<◌, compare, Ordering}
use mathlib.Core.Path.{◌≡◌, refl, sym, ap, ◌∙◌}
use mathlib.Core.Logic.{◌↔◌}
use mathlib.Core.Bool.{Bool, true, false, ◌&&◌}
use mathlib.Core.List.{List, [], ◌∷◌, ◌++◌}
use native.Mathlib.Omega.{arith}

module _ {ℓ} {A : Type ℓ} where
  abbrev pub length : List A → ℕ
  length [] = 0
  length (x ∷ xs) = suc (length xs)

  -- The element at an index, or `d` out of range.
  abbrev pub get_or : List A → ℕ → A → A
  get_or [] i d = d
  get_or (x ∷ xs) zero d = x
  get_or (x ∷ xs) (suc i) d = get_or xs i d

  abbrev pub take : ℕ → List A → List A
  take zero xs = []
  take (suc n) [] = []
  take (suc n) (x ∷ xs) = x ∷ take n xs

  abbrev pub drop : ℕ → List A → List A
  drop zero xs = xs
  drop (suc n) [] = []
  drop (suc n) (x ∷ xs) = drop n xs

  abbrev pub replicate : ℕ → A → List A
  replicate zero a = []
  replicate (suc n) a = a ∷ replicate n a

module _ {ℓ} {A : Type ℓ} where
  pub length-append : (xs ys : List A) → length (xs ++ ys) ≡ length xs + length ys
  length-append [] ys = omega arith
  length-append (x ∷ xs) ys = omega (arith, length-append xs ys)

  pub length-drop : (n : ℕ) (xs : List A) → length (drop n xs) ≡ length xs - n
  length-drop zero xs = omega arith
  length-drop (suc n) [] = omega arith
  length-drop (suc n) (x ∷ xs) = omega (arith, length-drop n xs)

  pub length-take : (n : ℕ) (xs : List A) → n ≤ length xs → length (take n xs) ≡ n
  length-take zero xs h = refl
  length-take (suc n) [] h = elim h [ ]
  length-take (suc n) (x ∷ xs) h = ap suc (length-take n xs (omega arith))

  pub take-append-drop : (n : ℕ) (xs : List A) → take n xs ++ drop n xs ≡ xs
  take-append-drop zero xs = refl
  take-append-drop (suc n) [] = refl
  take-append-drop (suc n) (x ∷ xs) = ap (λ (t : List A). x ∷ t) (take-append-drop n xs)

  -- The sum is on the right of the equation of lengths, for any way to write it.
  pub take-split :
      (n m k : ℕ) (xs : List A) → k ≡ n + m → take k xs ≡ take n xs ++ take m (drop n xs)
  take-split zero m k xs e = ap (λ (t : ℕ). take t xs) {x = k} {y = m} (omega arith)
  take-split (suc n) zero zero [] e = refl
  take-split (suc n) (suc m) zero xs e = absurd (omega arith)
  take-split (suc n) zero zero (x ∷ xs) e = absurd (omega arith)
  take-split (suc n) zero (suc k) [] e = refl
  take-split (suc n) (suc m) (suc k) [] e = refl
  take-split (suc n) m (suc k) (x ∷ xs) e =
      ap (λ (t : List A). x ∷ t) (take-split n m k xs (omega arith))

  pub take-append : (xs ys : List A) → take (length xs) (xs ++ ys) ≡ xs
  take-append [] ys = refl
  take-append (x ∷ xs) ys = ap (λ (t : List A). x ∷ t) (take-append xs ys)

  pub take-all : (xs : List A) → take (length xs) xs ≡ xs
  take-all [] = refl
  take-all (x ∷ xs) = ap (λ (t : List A). x ∷ t) (take-all xs)

  pub drop-append : (xs ys : List A) → drop (length xs) (xs ++ ys) ≡ ys
  drop-append [] ys = refl
  drop-append (x ∷ xs) ys = drop-append xs ys

  -- Cuts within the first of two lists.
  pub take_within : (n : ℕ) (xs ys : List A) → n ≤ length xs → take n (xs ++ ys) ≡ take n xs
  take_within zero xs ys h = refl
  take_within (suc n) [] ys h = elim h [ ]
  take_within (suc n) (x ∷ xs) ys h = ap (λ (t : List A). x ∷ t) (take_within n xs ys (omega arith))

  pub drop_within : (n : ℕ) (xs ys : List A) → n ≤ length xs → drop n (xs ++ ys) ≡ drop n xs ++ ys
  drop_within zero xs ys h = refl
  drop_within (suc n) [] ys h = elim h [ ]
  drop_within (suc n) (x ∷ xs) ys h = drop_within n xs ys (omega arith)

  -- With the length known by an equation.
  pub take-append_at : (n : ℕ) (xs ys : List A) → length xs ≡ n → take n (xs ++ ys) ≡ xs
  take-append_at n xs ys e = ap (λ (k : ℕ). take k (xs ++ ys)) (sym e) ∙ take-append xs ys

  pub drop-append_at : (n : ℕ) (xs ys : List A) → length xs ≡ n → drop n (xs ++ ys) ≡ ys
  drop-append_at n xs ys e = ap (λ (k : ℕ). drop k (xs ++ ys)) (sym e) ∙ drop-append xs ys

  drop-nil : (n : ℕ) → drop {A = A} n [] ≡ []
  drop-nil zero = refl
  drop-nil (suc n) = refl

  -- The second offset is on the left, so that the sum computes by `suc`.
  pub drop-drop : (n m : ℕ) (xs : List A) → drop n (drop m xs) ≡ drop (m + n) xs
  drop-drop n zero xs = ap (λ (k : ℕ). drop k xs) {x = n} {y = 0 + n} (omega arith)
  drop-drop n (suc m) [] = drop-nil n ∙ sym (drop-nil (suc m + n))
  drop-drop n (suc m) (x ∷ xs) =
      drop-drop n m xs
      ∙ ap (λ (k : ℕ). drop k (x ∷ xs)) {x = suc (m + n)} {y = suc m + n} (omega arith)

module _ {ℓ} {A : Type ℓ} where
  pub get_or-append :
      (k i : ℕ) (xs ys : List A) (d : A) → k ≡ length xs + i → get_or (xs ++ ys) k d ≡ get_or ys i d
  get_or-append k i [] ys d e = ap (λ (n : ℕ). get_or ys n d) {x = k} {y = i} (omega arith)
  get_or-append zero i (x ∷ xs) ys d e = absurd (omega arith)
  get_or-append (suc k) i (x ∷ xs) ys d e = get_or-append k i xs ys d (omega arith)

  pub get_or-drop : (o : ℕ) (xs : List A) (d : A) → get_or xs o d ≡ get_or (drop o xs) 0 d
  get_or-drop zero xs d = refl
  get_or-drop (suc o) [] d = refl
  get_or-drop (suc o) (x ∷ xs) d = get_or-drop o xs d

  pub drop-cons :
      (o : ℕ) (xs : List A) (d : A) → o < length xs → drop o xs ≡ get_or xs o d ∷ drop (o + 1) xs
  drop-cons zero [] d h = elim h [ ]
  drop-cons zero (x ∷ xs) d h = refl
  drop-cons (suc o) [] d h = absurd (omega arith)
  drop-cons (suc o) (x ∷ xs) d h =
      drop-cons o xs d (omega arith)
      ∙ ap (λ (k : ℕ). get_or xs o d ∷ drop k (x ∷ xs)) {x = suc (o + 1)} {y = suc o + 1}
          (omega arith)

  -- What a nonempty list at an offset says of the offset.
  pub drop-eq-cons :
      (o : ℕ) (xs : List A) (d : A) {y : A} {ys : List A}
      → drop o xs ≡ y ∷ ys
      → (get_or xs o d ≡ y) × (length xs ≡ o + suc (length ys))
  drop-eq-cons zero [] d e = cc
  drop-eq-cons zero (x ∷ xs) d e = ground (arith, ap length e)
  drop-eq-cons (suc o) [] d e = cc
  drop-eq-cons (suc o) (x ∷ xs) d e = ground (arith, drop-eq-cons o xs d e)

abbrev pub Bytes : Type 0
Bytes = List ℕ

abbrev pub IsByte : ℕ → Type 0
IsByte b = b < 256

abbrev pub All {ℓ κ} : {A : Type ℓ} → (A → Type κ) → List A → Type κ
All P [] = Unit
All P (x ∷ xs) = P x × All P xs

abbrev pub IsBytes : Bytes → Type 0
IsBytes = All IsByte

pub IsBytes-get_or : (d : Bytes) (o : ℕ) → IsBytes d → get_or d o 0 < 256
IsBytes-get_or [] o h = omega arith
IsBytes-get_or (b ∷ bs) zero h = h.0
IsBytes-get_or (b ∷ bs) (suc o) h = IsBytes-get_or bs o h.1

pub IsBytes-drop : (o : ℕ) (d : Bytes) → IsBytes d → IsBytes (drop o d)
IsBytes-drop zero d h = h
IsBytes-drop (suc o) [] h = tt
IsBytes-drop (suc o) (b ∷ bs) h = IsBytes-drop o bs h.1

pub IsBytes-append : (a b : Bytes) → IsBytes a → IsBytes b → IsBytes (a ++ b)
IsBytes-append [] b ha hb = hb
IsBytes-append (x ∷ a) b ha hb = (ha.0, IsBytes-append a b ha.1 hb)

-- Equality of byte strings.
unfoldable pub bytes_eq : Bytes → Bytes → Bool
bytes_eq [] [] = true
bytes_eq [] (b ∷ bs) = false
bytes_eq (a ∷ as') [] = false
bytes_eq (a ∷ as') (b ∷ bs) =
    elim (compare a b) [ Ordering.eq ↦ true | _ ↦ false ] && bytes_eq as' bs

pub bytes_eq_refl : (a : Bytes) → bytes_eq a a ≡ true
unfolding bytes_eq
bytes_eq_refl [] = refl
bytes_eq_refl (x ∷ xs) = ground (arith, bytes_eq_refl xs)

pub bytes_eq→eq : (a b : Bytes) → bytes_eq a b ≡ true → a ≡ b
unfolding bytes_eq
bytes_eq→eq [] [] h = refl
bytes_eq→eq [] (b ∷ bs) h = ground arith
bytes_eq→eq (a ∷ as') [] h = ground arith
bytes_eq→eq (a ∷ as') (b ∷ bs) h = ground (arith, bytes_eq→eq as' bs)

pub bytes_eq_iff : (a b : Bytes) → (bytes_eq a b ≡ true) ↔ (a ≡ b)
bytes_eq_iff a b = (bytes_eq→eq a b, λ e. rw e (bytes_eq_refl b))
