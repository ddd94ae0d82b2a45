-- ===== src/Informers/Noting.antt =====
-- What the loop of `Start` sets running, and what it notes.
use kopilot.Base.{
  ◌≡◌, refl, sym, ap, ◌∙◌, String, List, [], ◌∷◌, map, Bool, true, false, not, Table, insert, keep,
  All-map, Bool-cases, inl, inr, ◌==◌, eq_iff, arith,
}
use kopilot.Informers.{ClientGo, is_set, start_loop}
use kopilot.Informers.Walking.{keep-on, keep-off, keep-same, Apart, Distinct}
use kopilot.Informers.Sharing.{is_set-insert, start_loop-old, start_loop-new}

module _ (g : ClientGo) where
  open g use {Client, Informer}

  abbrev pub fresh : Table Bool → String × Informer → Bool
  fresh set b = not (is_set b.0 set)

  still_fresh :
      (t : String) (b : String × Informer) (set : Table Bool)
      → (t == b.0) ≡ false
      → fresh (insert t true set) b ≡ fresh set b
  still_fresh t b set off = rw (is_set-insert t b.0 set, off) refl

  -- A walk without a key twice sets running what is not noted yet.
  pub start_loop-runs :
      (l : Table Informer) (set : Table Bool)
      → Distinct l
      → (start_loop g l set).0 ≡ map (λ b. b.1) (keep (fresh set) l)
  start_loop-runs [] set h = unfold start_loop in refl
  start_loop-runs ((t, informer) ∷ l) set (apart, h) = elim (Bool-cases (is_set t set)) [
    | inl old ↦
        ap (λ (x : List Informer × Table Bool). x.0) (start_loop-old g t informer l set old)
        ∙ (start_loop-runs l set h
            ∙ ap (map (λ b. b.1)) (sym (keep-off (fresh set) (t, informer) l (rw old refl))))
    | inr new ↦
        ap (λ (x : List Informer × Table Bool). x.0) (start_loop-new g t informer l set new)
        ∙ (ap (◌∷◌ informer) (
              start_loop-runs l (insert t true set) h
              ∙ ap (map (λ b. b.1))
                  (keep-same _ _ l (All-map l (λ b off. still_fresh t b set off) apart)))
            ∙ ap (map (λ b. b.1)) (sym (keep-on (fresh set) (t, informer) l (rw new refl))))
  ]

  -- A type that is noted afterwards was noted before, or the walk met it.
  pub start_loop-is_set :
      (u : String) (l : Table Informer) (set : Table Bool)
      → Apart u l
      → is_set u (start_loop g l set).1 ≡ is_set u set
  start_loop-is_set u [] set h = unfold start_loop in refl
  start_loop-is_set u ((t, informer) ∷ l) set (off, h) = elim (Bool-cases (is_set t set)) [
    | inl old ↦
        ap (λ (x : List Informer × Table Bool). is_set u x.1)
          (start_loop-old g t informer l set old)
        ∙ start_loop-is_set u l set h
    | inr new ↦
        ap (λ (x : List Informer × Table Bool). is_set u x.1)
          (start_loop-new g t informer l set new)
        ∙ (start_loop-is_set u l (insert t true set) h
            ∙ ground (arith, is_set-insert t u set, eq_iff t u, eq_iff u t))
  ]
