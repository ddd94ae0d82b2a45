-- ===== src/Informers/Running.antt =====
-- Histories of a factory: which informers run.
use mathlib.Core.List.{Permᴰ, append-nil, map-append}
use mathlib.Core.List.Permᴰ
use kopilot.Base.{
  ℕ, ◌≡◌, refl, sym, subst, ap, ◌∙◌, String, List, [], ◌∷◌, ◌++◌, map, Bool, false, none, Table,
  lookup, keep, keep-append, All, Option-cases, inl, inr, ◌==◌,
}
use kopilot.Informers.{
  ClientGo, Factory, SharedInformerOption, apply_all, new_factory_with_options, is_set, start_loop,
  start_along, informer_for,
}
use kopilot.Informers.Walking.{
  keep-off, keep-Permᴰ, All-Permᴰ, All-left, keep-split, Apart, Distinct, Distinct-Permᴰ,
  insert-new, lookup-Apart, Distinct-append,
}
use kopilot.Informers.Sharing.{AllSet, start_loop-Sets, informer_for-fresh, informer_for-known}
use kopilot.Informers.Noting.{fresh, start_loop-runs, start_loop-is_set}

module _ (g : ClientGo) where
  open g use {Client, Informer}

  -- The options of the package leave the informers alone.
  abbrev pub IsOption : SharedInformerOption g → Type 0
  IsOption opt =
      (f : Factory g)
      → ((opt f).informers ≡ f.informers) × ((opt f).started_informers ≡ f.started_informers)

  -- A factory with the informers that it has set running so far, in order.
  abbrev pub Running : Type 0
  Running = Factory g × List Informer

  -- A call of `InformerFor` or of `Start`, which walks the map in any order.
  pub data Step (s : Running) : Running → Type 0 where
    asks :
        (t : String) (new_func : Client → ℕ → Informer)
        → Step s ((informer_for g t new_func s.0).1, s.1)
    starts_along :
        (walk : Table Informer)
        → Permᴰ walk s.0.informers
        → Step s ((start_along g walk s.0).1, s.1 ++ (start_along g walk s.0).0)

  pub data Reach : Running → Type 0 where
    makes :
        (client : Client) (resync : ℕ) (options : List (SharedInformerOption g))
        → All IsOption options
        → Reach (new_factory_with_options g client resync options, [])
    steps : {s t : Running} → Reach s → Step s t → Reach t

  abbrev pub all_informers : Factory g → List Informer
  all_informers f = map (λ b. b.1) f.informers

  -- The informers whose types are noted as started.
  abbrev pub started : Factory g → List Informer
  started f = map (λ b. b.1) (keep (λ b. is_set b.0 f.started_informers) f.informers)

  -- What holds in every history.
  record Inv (s : Running) : Type 0 where
    distinct : Distinct s.0.informers
    known : (u : String) → Apart u s.0.informers → is_set u s.0.started_informers ≡ false
    once : Permᴰ s.1 (started s.0)

  keep-all :
      (set : Table Bool) (l : Table Informer) → AllSet g set l → keep (λ b. is_set b.0 set) l ≡ l
  keep-all set [] h = refl
  keep-all set (b ∷ l) (h, hs) = rw h (ap (◌∷◌ b) (keep-all set l hs))

  asked :
      (f : Factory g) (ran : List Informer) (t : String) (informer : Informer)
      → lookup t f.informers ≡ none
      → Inv (f, ran)
      → Inv (record f { informers = f.informers ++ (t, informer) ∷ [] }, ran)
  asked f ran t informer new inv =
      let apart = lookup-Apart t f.informers new in
      let noted = λ (b : String × Informer). is_set b.0 f.started_informers in
      let same : keep noted (f.informers ++ (t, informer) ∷ []) ≡ keep noted f.informers =
        keep-append noted f.informers ((t, informer) ∷ [])
        ∙ (ap (λ l. keep noted f.informers ++ l)
              (keep-off noted (t, informer) [] (inv.known t apart))
            ∙ append-nil (keep noted f.informers)) in
      record {
        distinct = Distinct-append t informer f.informers apart inv.distinct;
        known = λ u off. inv.known u (All-left (λ b. (u == b.0) ≡ false) f.informers _ off);
        once = subst (λ (l : Table Informer). Permᴰ ran (map (λ b. b.1) l)) (sym same) inv.once;
      }

  begun :
      (f : Factory g) (ran : List Informer) (walk : Table Informer)
      → Permᴰ walk f.informers
      → Inv (f, ran)
      → Permᴰ (ran ++ (start_along g walk f).0) (all_informers f)
  unfolding start_along
  begun f ran walk order inv =
      let noted = λ (b : String × Informer). is_set b.0 f.started_informers in
      let l = f.informers in
      let runs =
        subst (λ x. Permᴰ x (map (λ b. b.1) (keep (fresh g f.started_informers) l)))
          (sym (
            start_loop-runs g walk f.started_informers
              (Distinct-Permᴰ (Permᴰ.symm order) inv.distinct)))
          (Permᴰ.map (λ b. b.1) (keep-Permᴰ (fresh g f.started_informers) order)) in
      Permᴰ.trans (Permᴰ.append_right _ inv.once) (
        Permᴰ.trans (Permᴰ.append_left (started f) runs) (
          subst (λ x. Permᴰ x (all_informers f))
            (map-append (λ (b : String × Informer). b.1) (keep noted l)
              (keep (fresh g f.started_informers) l))
            (Permᴰ.map (λ b. b.1) (Permᴰ.symm (keep-split noted l)))))

  Step-Inv : {s t : Running} → Step s t → Inv s → Inv t
  unfolding start_along
  Step-Inv {s} (asks t new_func) inv = elim (Option-cases (lookup t s.0.informers)) [
    | inr (informer, q) ↦
        subst (λ (x : Informer × Factory g). Inv (x.1, s.1))
          (sym (informer_for-known g t new_func s.0 informer q)) inv
    | inl q ↦
        subst (λ (x : Informer × Factory g). Inv (x.1, s.1))
          (sym (informer_for-fresh g t new_func s.0 q))
          (subst (λ l. Inv (record s.0 { informers = l }, s.1))
            (sym (insert-new t _ s.0.informers q)) (asked s.0 s.1 t _ q inv))
  ]
  Step-Inv {s} (starts_along walk order) inv =
      let set = s.0.started_informers in
      let (sets, _) = start_loop-Sets g walk set in
      record {
        distinct = inv.distinct;
        known = λ u off.
            start_loop-is_set g u walk set (All-Permᴰ _ (Permᴰ.symm order) off) ∙ inv.known u off;
        once =
            subst (λ l. Permᴰ (s.1 ++ (start_loop g walk set).0) (map (λ b. b.1) l))
              (sym (keep-all _ s.0.informers (All-Permᴰ _ order sets)))
              (begun s.0 s.1 walk order inv);
      }

  apply_all-keeps :
      (options : List (SharedInformerOption g)) (f : Factory g)
      → All IsOption options
      → ((apply_all g options f).informers ≡ f.informers)
        × ((apply_all g options f).started_informers ≡ f.started_informers)
  unfolding apply_all
  apply_all-keeps [] f fine = (refl, refl)
  apply_all-keeps (opt ∷ options) f (h, hs) =
      let (same, same') = apply_all-keeps options (opt f) hs in
      let (kept, kept') = h f in (same ∙ kept, same' ∙ kept')

  blank-Inv : (f : Factory g) → f.informers ≡ [] → f.started_informers ≡ [] → Inv (f, [])
  unfolding is_set lookup
  blank-Inv f none_asked none_started = record {
    distinct = subst Distinct (sym none_asked) tt;
    known = λ u off. ap (is_set u) none_started;
    once =
        subst
          (λ (l : Table Informer).
            Permᴰ [] (map (λ b. b.1) (keep (λ b. is_set b.0 f.started_informers) l)))
          (sym none_asked) Permᴰ.nil;
  }

  Reach-Inv : {s : Running} → Reach s → Inv s
  unfolding new_factory_with_options
  Reach-Inv (makes client resync options fine) =
      let (same, same') = apply_all-keeps options _ fine in blank-Inv _ same same'
  Reach-Inv (steps r st) = Step-Inv st (Reach-Inv r)

  -- Whatever calls of `InformerFor` and `Start` were made, and in whatever orders `Start` walked
  -- the map, the informers that were set running are those of the types noted as started, each of
  -- them once; and another `Start`, in any order, sets running just the others, so that all of the
  -- factory's informers run, each once. Assumed: the options that made the factory leave its
  -- informers alone.
  pub start_along-RunsOnce :
      {s : Running}
      → Reach s
      → Permᴰ s.1 (started s.0)
        × ((walk : Table Informer)
            → Permᴰ walk s.0.informers
            → Permᴰ (s.1 ++ (start_along g walk s.0).0) (all_informers s.0))
  start_along-RunsOnce {s} r =
      let inv = Reach-Inv r in (inv.once, λ walk order. begun s.0 s.1 walk order inv)
