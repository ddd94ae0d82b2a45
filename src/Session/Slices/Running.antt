-- ===== src/Session/Slices/Running.antt =====
-- Sequences of calls of the manager over slices, and of the one over lists.
use kopilot.Base.{ℕ, ◌≡◌, refl, ap, List, [], ◌∷◌, Result, Outcome, done, ◌>>=◌}
use kopilot.Session.{
  Network, SessionManager, Dialled, new_session_manager, add_cluster_session, dial_cluster,
}
use kopilot.Session.Interleaving.{Call, add, dial}
use kopilot.Session.Slices.{
  SliceManager, DialledInPlace, new_slice_manager, add_in_place, dial_cluster_in_place,
}
use kopilot.Session.Slices.Representing.{Represents}
use kopilot.Session.Slices.Adding.{Represents-new, Represents-add_in_place}
use kopilot.Session.Slices.Refining.{
  Agrees, both_done, both_panicked, both_starved, dial_cluster_in_place-Agrees,
}

module _ (n : Network) where
  open n use {World, Conn}

  -- What callers see of a sequence of calls: the results of the dials, and what became of the
  -- world.
  abbrev pub Seen : Type 0
  Seen = List (Result Conn) × World

  abbrev answered : Result Conn → Seen → Outcome Seen
  answered r (rs, w) = done (r ∷ rs, w)

  unfoldable pub run : List (Call n) → SessionManager n → World → Outcome Seen
  run [] m w = done ([], w)
  run (add key s ∷ rest) m w = run rest (add_cluster_session n key s m) w
  run (dial key ∷ rest) m w = do
    (r, m', w') ← dial_cluster n key m w
    seen ← run rest m' w'
    answered r seen

  module _ (spare : ℕ → List n.Session) where
    unfoldable pub run_in_place : List (Call n) → SliceManager n → World → Outcome Seen
    run_in_place [] c w = done ([], w)
    run_in_place (add key s ∷ rest) c w = run_in_place rest (add_in_place n spare key s c) w
    run_in_place (dial key ∷ rest) c w = do
      (r, c', w') ← dial_cluster_in_place n key c w
      seen ← run_in_place rest c' w'
      answered r seen

    abbrev AllAgree : List (Call n) → Type 0
    AllAgree cs =
        (c : SliceManager n) (m : SessionManager n) (w : World)
        → Represents n c m
        → run_in_place cs c w ≡ run cs m w

    Agrees-run :
        (rest : List (Call n)) {x : Outcome (DialledInPlace n)} {y : Outcome (Dialled n)}
        → AllAgree rest
        → Agrees n x y
        → (x >>= λ d. run_in_place rest d.1 d.2 >>= answered d.0)
          ≡ (y >>= λ d. run rest d.1 d.2 >>= answered d.0)
    Agrees-run rest same (both_done r w c m rep) = ap (λ x. x >>= answered r) (same c m w rep)
    Agrees-run rest same both_panicked = refl
    Agrees-run rest same both_starved = refl

    run_in_place-AllAgree : (cs : List (Call n)) → AllAgree cs
    unfolding run run_in_place
    run_in_place-AllAgree [] c m w rep = refl
    run_in_place-AllAgree (add key s ∷ rest) c m w rep =
        run_in_place-AllAgree rest (add_in_place n spare key s c) (add_cluster_session n key s m) w
          (Represents-add_in_place n spare key s c m rep)
    run_in_place-AllAgree (dial key ∷ rest) c m w rep =
        Agrees-run rest (run_in_place-AllAgree rest) (dial_cluster_in_place-Agrees n key c m w rep)

    -- Go's slices are edited in place, and `append` leaves room behind the elements of an array
    -- that it allocates. Yet whatever that room is, and whatever `rand.Intn` and the sessions do:
    -- from an empty manager, each sequence of additions and dials gives the same results of the
    -- dials, in the same world, as if each list of sessions were copied whole, and it panics
    -- exactly if that one does.
    pub run_in_place-run :
        (cs : List (Call n)) (w : World)
        → run_in_place cs (new_slice_manager n) w ≡ run cs (new_session_manager n) w
    run_in_place-run cs w =
        run_in_place-AllAgree cs (new_slice_manager n) (new_session_manager n) w (Represents-new n)
