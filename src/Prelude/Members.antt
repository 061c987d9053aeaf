-- ===== src/Prelude/Members.antt =====
-- A predicate on every element, and the elements that a filter keeps.
use mathlib.Core.Path.{◌≡◌, refl, sym, ap, subst}
use mathlib.Core.List.{List, [], ◌∷◌, ◌++◌, Memᴰ}
use mathlib.Core.List.Memᴰ
use mathlib.Core.Bool.{Bool, true}
use mathlib.Core.Logic.{◌⊎◌, inl, inr}
use Prim.Native.Nat.{ℕ, zero, suc, ◌<◌}
use native.Mathlib.Omega.{arith}
use alphaping.Prelude.Tests.{Bool-cases}
use alphaping.Prelude.Lists.{All, filter, any, take, drop, length, take-append-drop}

module _ {ℓ κ μ} {A : Type ℓ} {P : A → Type κ} {Q : A → Type μ} where
  pub All-mono : (xs : List A) → ((x : A) → P x → Q x) → All P xs → All Q xs
  All-mono [] f p = tt
  All-mono (x ∷ xs) f (p, ps) = (f x p, All-mono xs f ps)

module _ {ℓ κ} {A : Type ℓ} (P : A → Type κ) where
  pub All-Memᴰ : (xs : List A) {x : A} → All P xs → Memᴰ x xs → P x
  All-Memᴰ [] ps m = elim m [ ]
  All-Memᴰ (y ∷ xs) (p, ps) (Memᴰ.head e) = rw e p
  All-Memᴰ (y ∷ xs) (p, ps) (Memᴰ.tail m) = All-Memᴰ xs ps m

  pub All-intro : (xs : List A) → ((x : A) → Memᴰ x xs → P x) → All P xs
  All-intro [] f = tt
  All-intro (x ∷ xs) f = (f x (Memᴰ.head refl), All-intro xs (λ y m. f y (Memᴰ.tail m)))

  pub All-append : (xs ys : List A) → All P xs → All P ys → All P (xs ++ ys)
  All-append [] ys ps qs = qs
  All-append (x ∷ xs) ys (p, ps) qs = (p, All-append xs ys ps qs)

  -- A filter keeps what holds of each, and its test holds of those it keeps.
  pub All-filter :
      (test : A → Bool) (xs : List A) → All P xs → All (λ x. P x × (test x ≡ true)) (filter test xs)
  All-filter test [] ps = tt
  All-filter test (x ∷ xs) (p, ps) = elim (Bool-cases (test x)) [
    | inl e ↦ rw e ((p, e), All-filter test xs ps)
    | inr e ↦ rw e (All-filter test xs ps)
  ]

module _ {ℓ} {A : Type ℓ} where
  pub Memᴰ-filter :
      (test : A → Bool) (xs : List A) {x : A} → Memᴰ x xs → test x ≡ true → Memᴰ x (filter test xs)
  Memᴰ-filter test [] m h = elim m [ ]
  Memᴰ-filter test (y ∷ xs) (Memᴰ.head e) h = rw (← e, h) (Memᴰ.head refl)
  Memᴰ-filter test (y ∷ xs) (Memᴰ.tail m) h = elim (Bool-cases (test y)) [
    | inl k ↦ rw k (Memᴰ.tail (Memᴰ-filter test xs m h))
    | inr k ↦ rw k (Memᴰ-filter test xs m h)
  ]

  pub any-append_left :
      (test : A → Bool) (xs ys : List A) → any test xs ≡ true → any test (xs ++ ys) ≡ true
  any-append_left test [] ys e = cc
  any-append_left test (x ∷ xs) ys e = elim (Bool-cases (test x)) [
    | inl h ↦ rw h refl
    | inr h ↦ rw h (any-append_left test xs ys (rw h at e))
  ]

  pub any-append_right :
      (test : A → Bool) (xs ys : List A) → any test ys ≡ true → any test (xs ++ ys) ≡ true
  any-append_right test [] ys e = e
  any-append_right test (x ∷ xs) ys e = elim (Bool-cases (test x)) [
    | inl h ↦ rw h refl
    | inr h ↦ rw h (any-append_right test xs ys e)
  ]

  pub any-append_cases :
      (test : A → Bool) (xs ys : List A)
      → any test (xs ++ ys) ≡ true
      → (any test xs ≡ true) ⊎ (any test ys ≡ true)
  any-append_cases test [] ys e = inr e
  any-append_cases test (x ∷ xs) ys e = elim (Bool-cases (test x)) [
    | inl h ↦ inl (rw h refl)
    | inr h ↦ rw h (any-append_cases test xs ys (rw h at e))
  ]

  pub any_of_Memᴰ :
      (test : A → Bool) (xs : List A) {x : A} → Memᴰ x xs → test x ≡ true → any test xs ≡ true
  any_of_Memᴰ test [] m h = elim m [ ]
  any_of_Memᴰ test (y ∷ xs) (Memᴰ.head e) h = rw (← e, h) refl
  any_of_Memᴰ test (y ∷ xs) (Memᴰ.tail m) h = elim (Bool-cases (test y)) [
    | inl k ↦ rw k refl
    | inr k ↦ rw k (any_of_Memᴰ test xs m h)
  ]

  -- A list that is not as long as what is taken is taken whole.
  pub take_whole : (n : ℕ) (xs : List A) → length (take n xs) < n → take n xs ≡ xs
  take_whole zero xs h = absurd (omega (arith, h))
  take_whole (suc n) [] h = refl
  take_whole (suc n) (x ∷ xs) h = ap (λ l. x ∷ l) (take_whole n xs (omega (arith, h)))

  -- What a list has is in what is taken or in what is left.
  pub any-take-drop :
      (test : A → Bool) (n : ℕ) (xs : List A)
      → any test xs ≡ true
      → (any test (take n xs) ≡ true) ⊎ (any test (drop n xs) ≡ true)
  any-take-drop test n xs e =
      any-append_cases test (take n xs) (drop n xs)
        (subst (λ l. any test l ≡ true) (sym (take-append-drop n xs)) e)

  pub Memᴰ-take-drop :
      (n : ℕ) (xs : List A) {x : A} → Memᴰ x xs → Memᴰ x (take n xs) ⊎ Memᴰ x (drop n xs)
  Memᴰ-take-drop n xs {x} m =
      Memᴰ.append_cases (take n xs) (subst (Memᴰ x) (sym (take-append-drop n xs)) m)
