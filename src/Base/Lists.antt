-- ===== src/Base/Lists.antt =====
-- Slices as lists: length, indexing, sub-slices over the native numbers, and predicates on lists.
use Prim.Native.Nat.{ℕ, zero, suc, ◌+◌, ◌<◌}
use mathlib.Core.Path.{◌≡◌, refl, ap, sym, subst}
use mathlib.Core.Logic.{◌⊎◌}
use mathlib.Core.Bool.{Bool, true, false, ◌||◌}
use mathlib.Core.Option.{Option, none, some}
use mathlib.Core.List.{List, [], ◌∷◌, ◌++◌, Perm, perm_middle}
use native.Mathlib.Omega.{arith}
use kopilot.Base.Tests.{if◌then◌else◌}

module _ {ℓ} {A : Type ℓ} where
  abbrev pub length : List A → ℕ
  length [] = 0
  length (x ∷ xs) = suc (length xs)

  abbrev pub get_elem? : List A → ℕ → Option A
  get_elem? [] i = none
  get_elem? (x ∷ xs) zero = some x
  get_elem? (x ∷ xs) (suc i) = get_elem? xs i

  abbrev pub take : ℕ → List A → List A
  take zero xs = []
  take (suc i) [] = []
  take (suc i) (x ∷ xs) = x ∷ take i xs

  abbrev pub drop : ℕ → List A → List A
  drop zero xs = xs
  drop (suc i) [] = []
  drop (suc i) (x ∷ xs) = drop i xs

  -- `append(xs[:i], xs[i+1:]...)`.
  unfoldable pub remove_at : List A → ℕ → List A
  remove_at xs i = take i xs ++ drop (suc i) xs

  abbrev pub keep : (A → Bool) → List A → List A
  keep p [] = []
  keep p (x ∷ xs) = if p x then x ∷ keep p xs else keep p xs

  pub length-append : (xs ys : List A) → length (xs ++ ys) ≡ length xs + length ys
  length-append [] ys = omega arith
  length-append (x ∷ xs) ys = omega (arith, length-append xs ys)

  pub get_elem?-some : (xs : List A) (i : ℕ) → i < length xs → (x : A) × (get_elem? xs i ≡ some x)
  get_elem?-some [] i h = absurd (omega arith)
  get_elem?-some (x ∷ xs) zero h = (x, refl)
  get_elem?-some (x ∷ xs) (suc i) h = get_elem?-some xs i (omega arith)

  pub get_elem?-lt : (xs : List A) (i : ℕ) (x : A) → get_elem? xs i ≡ some x → i < length xs
  get_elem?-lt [] i x h = cc
  get_elem?-lt (y ∷ xs) zero x h = omega arith
  get_elem?-lt (y ∷ xs) (suc i) x h = omega (arith, get_elem?-lt xs i x h)

  pub get_elem?-drop-nil : (xs : List A) (i : ℕ) → drop i xs ≡ [] → get_elem? xs i ≡ none
  get_elem?-drop-nil [] i h = refl
  get_elem?-drop-nil (x ∷ xs) zero h = cc
  get_elem?-drop-nil (x ∷ xs) (suc i) h = get_elem?-drop-nil xs i h

  pub get_elem?-drop-cons :
      (xs : List A) (i : ℕ) (y : A) (ys : List A)
      → drop i xs ≡ y ∷ ys
      → (get_elem? xs i ≡ some y) × (drop (suc i) xs ≡ ys)
  get_elem?-drop-cons [] zero y ys h = cc
  get_elem?-drop-cons [] (suc i) y ys h = cc
  get_elem?-drop-cons (x ∷ xs) zero y ys h = ground arith
  get_elem?-drop-cons (x ∷ xs) (suc i) y ys h = get_elem?-drop-cons xs i y ys h

  -- An index that holds `x` splits the list around `x`.
  pub take-drop_at :
      (xs : List A) (i : ℕ) (x : A)
      → get_elem? xs i ≡ some x
      → xs ≡ take i xs ++ x ∷ drop (suc i) xs
  take-drop_at [] i x h = cc
  take-drop_at (y ∷ xs) zero x h = ground arith
  take-drop_at (y ∷ xs) (suc i) x h = ap (◌∷◌ y) (take-drop_at xs i x h)

  pub length-remove_at :
      (xs : List A) (i : ℕ) (x : A)
      → get_elem? xs i ≡ some x
      → length xs ≡ suc (length (remove_at xs i))
  unfolding remove_at
  length-remove_at xs i x h = omega (
    arith,
    ap length (take-drop_at xs i x h),
    length-append (take i xs) (x ∷ drop (suc i) xs),
    length-append (take i xs) (drop (suc i) xs),
  )

  pub perm-remove_at :
      (xs : List A) (i : ℕ) (x : A) → get_elem? xs i ≡ some x → Perm xs (x ∷ remove_at xs i)
  unfolding remove_at
  perm-remove_at xs i x h =
      subst (λ l. Perm l (x ∷ remove_at xs i)) (sym (take-drop_at xs i x h))
        (perm_middle (take i xs) (drop (suc i) xs))

  pub keep-append : (p : A → Bool) (xs ys : List A) → keep p (xs ++ ys) ≡ keep p xs ++ keep p ys
  keep-append p [] ys = refl
  keep-append p (x ∷ xs) ys = ground (arith, keep-append p xs ys)

  -- Removing an element that `p` refuses leaves what `p` keeps.
  pub keep-remove_at :
      (p : A → Bool) (xs : List A) (i : ℕ) (x : A)
      → get_elem? xs i ≡ some x
      → p x ≡ false
      → keep p (remove_at xs i) ≡ keep p xs
  unfolding remove_at
  keep-remove_at p [] i x h off = cc
  keep-remove_at p (y ∷ xs) zero x h off = ground arith
  keep-remove_at p (y ∷ xs) (suc i) x h off = ground (arith, keep-remove_at p xs i x h off)

-- Membership, by recursion.
abbrev pub In : {A : Type 0} → A → List A → Type 0
In x [] = ⊥
In x (y ∷ ys) = (y ≡ x) ⊎ In x ys

module _ {ℓ} {A : Type ℓ} where
  abbrev pub any : (A → Bool) → List A → Bool
  any p [] = false
  any p (x ∷ xs) = p x || any p xs

  pub any-get_elem? :
      (p : A → Bool) (xs : List A) (i : ℕ) (x : A)
      → get_elem? xs i ≡ some x
      → p x ≡ true
      → any p xs ≡ true
  any-get_elem? p [] i x h on = cc
  any-get_elem? p (y ∷ xs) zero x h on = ground arith
  any-get_elem? p (y ∷ xs) (suc i) x h on = ground (arith, any-get_elem? p xs i x h on)

  pub any-append_last :
      (p : A → Bool) (xs : List A) (x : A) → p x ≡ true → any p (xs ++ x ∷ []) ≡ true
  any-append_last p [] x on = ground arith
  any-append_last p (y ∷ xs) x on = ground (arith, any-append_last p xs x on)

  pub any-remove_at :
      (p : A → Bool) (xs : List A) (i : ℕ) (x : A)
      → get_elem? xs i ≡ some x
      → p x ≡ false
      → any p (remove_at xs i) ≡ any p xs
  unfolding remove_at
  any-remove_at p [] i x h off = cc
  any-remove_at p (y ∷ xs) zero x h off = ground arith
  any-remove_at p (y ∷ xs) (suc i) x h off = ground (arith, any-remove_at p xs i x h off)

module _ {ℓ κ} {A : Type ℓ} (P : A → Type κ) where
  abbrev pub All : List A → Type κ
  All [] = Unit
  All (x ∷ xs) = P x × All xs

  pub All-append : (xs ys : List A) → All xs → All ys → All (xs ++ ys)
  All-append [] ys hx hy = hy
  All-append (x ∷ xs) ys hx hy = (hx.0, All-append xs ys hx.1 hy)

  some_subst : {x y : A} → some x ≡ some y → P x → P y
  some_subst e p = subst P (cc) p

  pub All-get_elem? : (xs : List A) (i : ℕ) (x : A) → All xs → get_elem? xs i ≡ some x → P x
  All-get_elem? [] i x h e = cc
  All-get_elem? (y ∷ xs) zero x h e = some_subst e h.0
  All-get_elem? (y ∷ xs) (suc i) x h e = All-get_elem? xs i x h.1 e

  pub All-remove_at : (xs : List A) (i : ℕ) → All xs → All (remove_at xs i)
  unfolding remove_at
  All-remove_at [] zero h = tt
  All-remove_at [] (suc i) h = tt
  All-remove_at (y ∷ xs) zero h = h.1
  All-remove_at (y ∷ xs) (suc i) h = (h.0, All-remove_at xs i h.1)

module _ {ℓ κ μ} {A : Type ℓ} {P : A → Type κ} {Q : A → Type μ} where
  pub All-map : (xs : List A) → ((x : A) → P x → Q x) → All P xs → All Q xs
  All-map [] f h = tt
  All-map (x ∷ xs) f h = (f x h.0, All-map xs f h.1)
