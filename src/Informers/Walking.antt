-- ===== src/Informers/Walking.antt =====
-- Walks of a map, whose order Go leaves open: what holds of the entries in one order holds in all.
use mathlib.Core.List.{Permᴰ}
use mathlib.Core.List.Permᴰ
use kopilot.Base.{
  ◌≡◌, refl, subst, String, List, [], ◌∷◌, ◌++◌, Bool, true, false, not, none, Table, lookup,
  insert, keep, All, All-append, Bool-cases, inl, inr, ◌==◌, eq_iff, arith,
}

module _ {A : Type 0} where
  pub keep-on : (p : A → Bool) (x : A) (xs : List A) → p x ≡ true → keep p (x ∷ xs) ≡ x ∷ keep p xs
  keep-on p x xs h = rw h refl

  pub keep-off : (p : A → Bool) (x : A) (xs : List A) → p x ≡ false → keep p (x ∷ xs) ≡ keep p xs
  keep-off p x xs h = rw h refl

  keep-swap :
      (p : A → Bool) (x y : A) (xs : List A) → Permᴰ (keep p (x ∷ y ∷ xs)) (keep p (y ∷ x ∷ xs))
  keep-swap p x y xs = elim (Bool-cases (p x)) [
    | inl h ↦ elim (Bool-cases (p y)) [
      | inl k ↦ rw (h, k) (Permᴰ.swap refl refl)
      | inr k ↦ rw (h, k) (Permᴰ.refl (x ∷ keep p xs))
    ]
    | inr h ↦ elim (Bool-cases (p y)) [
      | inl k ↦ rw (h, k) (Permᴰ.refl (y ∷ keep p xs))
      | inr k ↦ rw (h, k) (Permᴰ.refl (keep p xs))
    ]
  ]

  pub keep-Permᴰ : (p : A → Bool) {xs ys : List A} → Permᴰ xs ys → Permᴰ (keep p xs) (keep p ys)
  keep-Permᴰ p Permᴰ.nil = Permᴰ.nil
  keep-Permᴰ p (Permᴰ.cons {a} {b} {l₁} {l₂} e r) = elim (Bool-cases (p a)) [
    | inl h ↦
        rw (keep-on p a l₁ h, keep-on p b l₂ (subst (λ x. p x ≡ true) e h))
          (Permᴰ.cons e (keep-Permᴰ p r))
    | inr h ↦
        rw (keep-off p a l₁ h, keep-off p b l₂ (subst (λ x. p x ≡ false) e h)) (keep-Permᴰ p r)
  ]
  keep-Permᴰ p (Permᴰ.swap {a} {b} {a'} {b'} {l} e f) =
      subst (λ x. Permᴰ (keep p (a ∷ b ∷ l)) (keep p (x ∷ b' ∷ l))) f
        (subst (λ x. Permᴰ (keep p (a ∷ b ∷ l)) (keep p (b ∷ x ∷ l))) e (keep-swap p a b l))
  keep-Permᴰ p (Permᴰ.trans r s) = Permᴰ.trans (keep-Permᴰ p r) (keep-Permᴰ p s)

  pub All-Permᴰ : (P : A → Type 0) {xs ys : List A} → Permᴰ xs ys → All P xs → All P ys
  All-Permᴰ P Permᴰ.nil h = tt
  All-Permᴰ P (Permᴰ.cons e r) (h, hs) = (subst P e h, All-Permᴰ P r hs)
  All-Permᴰ P (Permᴰ.swap e f) (h, (h', hs)) = (subst P f h', (subst P e h, hs))
  All-Permᴰ P (Permᴰ.trans r s) h = All-Permᴰ P s (All-Permᴰ P r h)

  pub All-left : (P : A → Type 0) (xs ys : List A) → All P (xs ++ ys) → All P xs
  All-left P [] ys h = tt
  All-left P (x ∷ xs) ys (h, hs) = (h, All-left P xs ys hs)

  pub keep-split : (p : A → Bool) (xs : List A) → Permᴰ xs (keep p xs ++ keep (λ x. not (p x)) xs)
  keep-split p [] = Permᴰ.nil
  keep-split p (x ∷ xs) = elim (Bool-cases (p x)) [
    | inl h ↦ rw h (Permᴰ.cons refl (keep-split p xs))
    | inr h ↦
        rw h (Permᴰ.trans (Permᴰ.cons refl (keep-split p xs)) (Permᴰ.symm (Permᴰ.middle x _ _)))
  ]

  pub keep-same : (p q : A → Bool) (xs : List A) → All (λ x. p x ≡ q x) xs → keep p xs ≡ keep q xs
  keep-same p q [] h = refl
  keep-same p q (x ∷ xs) (h, hs) = ground (arith, keep-same p q xs hs)

apart_sym : (t u : String) → (t == u) ≡ false → (u == t) ≡ false
apart_sym t u h = ground (arith, eq_iff t u, eq_iff u t)

module _ {V : Type 0} where
  abbrev pub Apart : String → Table V → Type 0
  Apart t l = All (λ b. (t == b.0) ≡ false) l

  -- No key twice.
  abbrev pub Distinct : Table V → Type 0
  Distinct [] = Unit
  Distinct ((t, v) ∷ l) = Apart t l × Distinct l

  pub Distinct-Permᴰ : {xs ys : Table V} → Permᴰ xs ys → Distinct xs → Distinct ys
  Distinct-Permᴰ Permᴰ.nil h = tt
  Distinct-Permᴰ (Permᴰ.cons {a} {b} {l₁} {l₂} e r) (h, hs) = (
    subst (λ (x : String × V). Apart x.0 l₂) e (All-Permᴰ (λ c. (a.0 == c.0) ≡ false) r h),
    Distinct-Permᴰ r hs,
  )
  Distinct-Permᴰ (Permᴰ.swap {a} {b} {a'} {b'} {l} e f) ((h, ha), (hb, hs)) =
      subst (λ (x : String × V). Distinct (x ∷ b' ∷ l)) f
        (subst (λ (x : String × V). Distinct (b ∷ x ∷ l)) e ((apart_sym a.0 b.0 h, hb), (ha, hs)))
  Distinct-Permᴰ (Permᴰ.trans r s) h = Distinct-Permᴰ s (Distinct-Permᴰ r h)

  pub insert-new :
      (t : String) (v : V) (l : Table V) → lookup t l ≡ none → insert t v l ≡ l ++ (t, v) ∷ []
  unfolding insert lookup
  insert-new t v [] h = refl
  insert-new t v ((u, x) ∷ l) h = ground (arith, insert-new t v l)

  pub lookup-Apart : (t : String) (l : Table V) → lookup t l ≡ none → Apart t l
  unfolding lookup
  lookup-Apart t [] h = tt
  lookup-Apart t ((u, x) ∷ l) h =
      (ground (arith, eq_iff t u, eq_iff u t), lookup-Apart t l (ground arith))

  pub Distinct-append :
      (t : String) (v : V) (l : Table V) → Apart t l → Distinct l → Distinct (l ++ (t, v) ∷ [])
  Distinct-append t v [] h hs = (tt, tt)
  Distinct-append t v ((u, x) ∷ l) (h, hs) (a, rest) = (
    All-append (λ b. (u == b.0) ≡ false) l ((t, v) ∷ []) a (apart_sym t u h, tt),
    Distinct-append t v l hs rest,
  )
