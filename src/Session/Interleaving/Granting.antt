-- ===== src/Session/Interleaving/Granting.antt =====
-- Which sessions answer the dials of concurrent goroutines.
use kopilot.Base.{
  ℕ, ◌≡◌, refl, sym, subst, ◌∙◌, ◌⊎◌, inl, inr, String, List, [], ◌∷◌, ◌++◌, Bool-cases, eq_iff,
  ◌==◌, arith, All, All-append, All-map, All-remove_at, All-get_elem?, ok, err, Result, lookup,
}
use kopilot.Api.{NamespacedName}
use kopilot.Session.{Network, SessionManager, sessions, new_session_manager}
use kopilot.Session.Dialling.{sessions-store, sessions-store_other}
use kopilot.Session.Failover.{sessions-add_cluster_session}
use kopilot.Session.Interleaving.{
  Call, add, dial, Reply, dialled, Event, System, Reach, DialRun, none_left, granted, dropped,
  Performs, adds, dials, Serial, nothing, then_performs,
}
use kopilot.Session.Interleaving.Serializing.{Reach-settled}

module _ (n : Network) where
  open n use {World, Session, Conn, open_conn, key_string}

  -- The session was added for a key of this text.
  abbrev pub IsAdded : String → Session → List (Event n) → Type 0
  IsAdded id s [] = ⊥
  IsAdded id s (e ∷ log) =
      ((key : NamespacedName) × (e.call ≡ add key s) × (key_string key ≡ id)) ⊎ IsAdded id s log

  DialRun-keeps :
      (P : Session → Type 0) (id : String) {ss : List Session} {m : SessionManager n}
      {r : Result Conn} {m' : SessionManager n}
      → DialRun n id ss m r m'
      → sessions n m id ≡ ss
      → (All P ss → All P (sessions n m' id))
        × ((j : String) → ¬ (id ≡ j) → sessions n m' j ≡ sessions n m j)
  DialRun-keeps P id (none_left m) e = ((λ a. subst (All P) (sym e) a), λ j h. refl)
  DialRun-keeps P id (granted ss m i s v conn at o) e =
      ((λ a. subst (All P) (sym e) a), λ j h. refl)
  DialRun-keeps P id (dropped ss m m' i s v er r at o run) e =
      let (all, other) = DialRun-keeps P id run (sessions-store n m id _) in
      ((λ a. all (All-remove_at P ss i a)), λ j h. other j h ∙ sessions-store_other n m id j _ h)

  DialRun-grants :
      (P : Session → Type 0) (id : String) (conn : Conn) {ss : List Session} {m : SessionManager n}
      {r : Result Conn} {m' : SessionManager n}
      → DialRun n id ss m r m'
      → r ≡ ok conn
      → All P ss
      → (s : Session) × (v : World) × P s × ((open_conn s v).0 ≡ ok conn)
  DialRun-grants P id conn (none_left m) e a = absurd (ground arith)
  DialRun-grants P id conn (granted ss m i s v conn' at o) e a =
      (s, v, All-get_elem? P ss i s a at, o ∙ e)
  DialRun-grants P id conn (dropped ss m m' i s v er r at o run) e a =
      DialRun-grants P id conn run e (All-remove_at P ss i a)

  AllAdded : List (Event n) → SessionManager n → Type 0
  AllAdded log m = (id : String) → All (λ s. IsAdded id s log) (sessions n m id)

  Performs-AllAdded :
      {m : SessionManager n} {c : Call n} {r : Reply n} {m' : SessionManager n} (i : ℕ)
      (log : List (Event n))
      → Performs n m c r m'
      → AllAdded log m
      → AllAdded (record { thread = i; call = c; reply = r } ∷ log) m'
  unfolding AllAdded
  Performs-AllAdded {m} {c} {r} i log (adds key s) all id =
      let Q = λ (t : Session). IsAdded id t (record { thread = i; call = c; reply = r } ∷ log) in
      let old : All Q (sessions n m id) = All-map (sessions n m id) (λ t. inr) (all id) in
      subst (All Q) (sym (sessions-add_cluster_session n key s m id))
        (elim (Bool-cases (key_string key == id)) [
          | inl same ↦
              rw same
                (All-append Q _ _ old (inl (key, refl, (eq_iff (key_string key) id).0 same), tt))
          | inr apart ↦ rw apart old
        ])
  Performs-AllAdded {m} {c} {r} i log (dials key q m' run) all id =
      let own = λ (t : Session). IsAdded (key_string key) t log in
      let (kept, other) = DialRun-keeps own (key_string key) run refl in
      All-map (sessions n m' id) (λ t. inr)
        (elim (Bool-cases (key_string key == id)) [
          | inl same ↦
              subst (λ j. All (λ t. IsAdded j t log) (sessions n m' j))
                ((eq_iff (key_string key) id).0 same) (kept (all (key_string key)))
          | inr apart ↦
              subst (All (λ t. IsAdded id t log))
                (sym (other id (λ e. ground (arith, eq_iff (key_string key) id)))) (all id)
        ])

  Serial-AllAdded : {log : List (Event n)} {m : SessionManager n} → Serial n log m → AllAdded log m
  unfolding new_session_manager lookup AllAdded
  Serial-AllAdded nothing id = tt
  Serial-AllAdded (then_performs log m m' i c r before perf) id =
      Performs-AllAdded i log perf (Serial-AllAdded before) id

  -- What the latest event of a log comes from.
  Latest : List (Event n) → Type 0
  Latest [] = Unit
  Latest (e ∷ log) =
      (m : SessionManager n) × (m' : SessionManager n) × Serial n log m
      × Performs n m e.call e.reply m'

  Serial-Latest : {log : List (Event n)} {m : SessionManager n} → Serial n log m → Latest log
  unfolding Latest
  Serial-Latest nothing = tt
  Serial-Latest (then_performs log m m' i c r before perf) = (m, m', before, perf)

  Serial-older :
      (newer older : List (Event n)) {m : SessionManager n}
      → Serial n (newer ++ older) m
      → (m' : SessionManager n) × Serial n older m'
  unfolding Latest
  Serial-older [] older {m} s = (m, s)
  Serial-older (e ∷ newer) older s =
      let (m, m', before, perf) = Serial-Latest s in Serial-older newer older before

  Granted : List (Event n) → Call n → Reply n → Type 0
  Granted log (dial key) (dialled (ok conn)) =
      (s : Session) × (v : World) × IsAdded (key_string key) s log × ((open_conn s v).0 ≡ ok conn)
  Granted log c r = Unit

  Performs-Granted :
      {m : SessionManager n} {c : Call n} {r : Reply n} {m' : SessionManager n}
      (log : List (Event n))
      → Performs n m c r m'
      → AllAdded log m
      → Granted log c r
  unfolding AllAdded Granted
  Performs-Granted log (adds key s) all = tt
  Performs-Granted log (dials key (ok conn) m' run) all =
      DialRun-grants (λ s. IsAdded (key_string key) s log) (key_string key) conn run refl
        (all (key_string key))
  Performs-Granted log (dials key (err e) m' run) all = tt

  -- Whatever the interleaving of the goroutines and of the network: a dial that has returned a
  -- connection got it from `Open` of a session that an earlier call had added for a key with the
  -- same text.
  pub Reach-IsAdded :
      {s : System n} (newer older : List (Event n)) (i : ℕ) (key : NamespacedName) (conn : Conn)
      → Reach n s
      → s.log ≡ newer ++ record { thread = i; call = dial key; reply = dialled (ok conn) } ∷ older
      → (t : Session) × (v : World) × IsAdded (key_string key) t older
        × ((open_conn t v).0 ≡ ok conn)
  unfolding Latest Granted
  Reach-IsAdded newer older i key conn reach e =
      let (m, serial) = Reach-settled n reach in
      let (m₁, s₁) = Serial-older newer _ (subst (λ l. Serial n l m) e serial) in
      let (m₂, m₃, before, perf) = Serial-Latest s₁ in
      Performs-Granted older perf (Serial-AllAdded before)
