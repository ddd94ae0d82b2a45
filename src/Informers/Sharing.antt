-- ===== src/Informers/Sharing.antt =====
-- How informers are shared and started.
use kopilot.Base.{
  ℕ, ◌≡◌, refl, sym, subst, ap, ◌∙◌, String, List, [], ◌∷◌, Bool, true, false, none, some, Table,
  lookup, insert, lookup-insert, eq_iff, if◌then◌else◌, ◌==◌, Bool-cases, Option-cases, inl, inr,
  All, arith,
}
use kopilot.Informers.{
  ClientGo, Factory, is_set, start_loop, start_along, start, resync_period, informer_for,
}

pub is_set-insert :
    (t u : String) (m : Table Bool)
    → is_set u (insert t true m) ≡ (if t == u then true else is_set u m)
unfolding is_set
is_set-insert t u m = ground (arith, lookup-insert t u true m)

module _ (g : ClientGo) where
  open g use {Client, Informer, wait_for_cache_sync}

  pub informer_for-fresh :
      (t : String) (new_func : Client → ℕ → Informer) (f : Factory g)
      → lookup t f.informers ≡ none
      → informer_for g t new_func f ≡ (
        new_func f.client (resync_period g t f),
        record f { informers = insert t (new_func f.client (resync_period g t f)) f.informers },
      )
  unfolding informer_for
  informer_for-fresh t new_func f q = rw (q, informer_for)

  pub informer_for-known :
      (t : String) (new_func : Client → ℕ → Informer) (f : Factory g) (informer : Informer)
      → lookup t f.informers ≡ some informer
      → informer_for g t new_func f ≡ (informer, f)
  unfolding informer_for
  informer_for-known t new_func f informer q = rw (q, informer_for)

  lookup-insert_self :
      {V : Type 0} (t : String) (v : V) (m : Table V) → lookup t (insert t v m) ≡ some v
  lookup-insert_self t v m = ground (arith, lookup-insert t t v m, eq_iff t t)

  -- Asking again for a type gives the informer of the first time, whatever constructor is offered,
  -- and changes nothing.
  pub informer_for_again :
      (t : String) (new_func other : Client → ℕ → Informer) (f : Factory g)
      → informer_for g t other (informer_for g t new_func f).1 ≡ informer_for g t new_func f
  informer_for_again t new_func other f = elim (Option-cases (lookup t f.informers)) [
    | inr (informer, q) ↦
        let e = informer_for-known t new_func f informer q in
        ap (λ (x : Informer × Factory g). informer_for g t other x.1) e
        ∙ (informer_for-known t other f informer q ∙ sym e)
    | inl q ↦
        let e = informer_for-fresh t new_func f q in
        ap (λ (x : Informer × Factory g). informer_for g t other x.1) e
        ∙ (informer_for-known t other _ _ (lookup-insert_self t _ f.informers) ∙ sym e)
  ]

  pub start_loop-old :
      (t : String) (informer : Informer) (rest : List (String × Informer)) (started : Table Bool)
      → is_set t started ≡ true
      → start_loop g ((t, informer) ∷ rest) started ≡ start_loop g rest started
  unfolding start_loop
  start_loop-old t informer rest started h = rw h

  pub start_loop-new :
      (t : String) (informer : Informer) (rest : List (String × Informer)) (started : Table Bool)
      → is_set t started ≡ false
      → start_loop g ((t, informer) ∷ rest) started ≡ (
        informer ∷ (start_loop g rest (insert t true started)).0,
        (start_loop g rest (insert t true started)).1,
      )
  unfolding start_loop
  start_loop-new t informer rest started h = rw h

  abbrev pub AllSet : Table Bool → List (String × Informer) → Type 0
  AllSet started l = All (λ b. is_set b.0 started ≡ true) l

  abbrev pub Sets : List (String × Informer) → Table Bool → List Informer × Table Bool → Type 0
  Sets l started x = AllSet x.1 l × ((u : String) → is_set u started ≡ true → is_set u x.1 ≡ true)

  -- The loop sets every type that it meets, and clears none.
  pub start_loop-Sets :
      (l : List (String × Informer)) (started : Table Bool)
      → Sets l started (start_loop g l started)
  start_loop-Sets [] started = (tt, λ u h. unfold start_loop in h)
  start_loop-Sets ((t, informer) ∷ rest) started = elim (Bool-cases (is_set t started)) [
    | inl old ↦
        let (sets, kept) = start_loop-Sets rest started in
        subst (Sets ((t, informer) ∷ rest) started)
          (sym (start_loop-old t informer rest started old)) ((kept t old, sets), kept)
    | inr new ↦
        let (sets, kept) = start_loop-Sets rest (insert t true started) in
        let here = is_set-insert t in
        subst (Sets ((t, informer) ∷ rest) started)
          (sym (start_loop-new t informer rest started new))
          (
            (kept t (ground (arith, here t started, eq_iff t t)), sets),
            λ u h. kept u (ground (arith, here u started)),
          )
  ]

  start_loop-idle :
      (l : List (String × Informer)) (started : Table Bool)
      → AllSet started l
      → start_loop g l started ≡ ([], started)
  start_loop-idle [] started h = unfold start_loop in refl
  start_loop-idle ((t, informer) ∷ rest) started (h, hs) =
      start_loop-old t informer rest started h ∙ start_loop-idle rest started hs

  -- After `Start` every informer of the factory is noted as started, and `Start` again sets none
  -- running and changes nothing.
  start_again :
      (f : Factory g)
      → All (λ b. is_set b.0 (start g f).1.started_informers ≡ true) f.informers
        × (start g (start g f).1 ≡ ([], (start g f).1))
  unfolding start start_along
  start_again f =
      let (sets, _) = start_loop-Sets f.informers f.started_informers in
      let again =
        start_loop-idle f.informers (start_loop g f.informers f.started_informers).1 sets in
      (
        sets,
        ap
            (λ (x : List Informer × Table Bool).
              (x.0, record (start g f).1 { started_informers = x.1 }))
            again,
      )
