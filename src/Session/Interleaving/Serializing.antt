-- ===== src/Session/Interleaving/Serializing.antt =====
-- The goroutines under the mutex against calls that are made at one blow.
use kopilot.Base.{
  ℕ, ◌≡◌, ◌≢◌, refl, sym, ap, subst, ◌∙◌, ◌⊎◌, inl, inr, List, [], ◌∷◌, ◌++◌, none, some, nat_eq,
  Bool-cases, Option-cases, Result-cases, get_elem?, Error, Result, ok, err, arith,
}
use kopilot.Api.{NamespacedName}
use kopilot.Session.{Network, SessionManager, new_session_manager, sessions, add_cluster_session}
use kopilot.Session.Interleaving.{
  Call, add, dial, dialled, Body, add_reads, add_writes, dial_reads, dial_tests, dial_opens,
  dial_closes, dial_cuts, returns, Pc, idle, waits, holds, enter, Moved, advance, System, update,
  Step, calls, locks, runs, unlocks, moves, Reach, starts, steps, DialRun, none_left, granted,
  dropped, Performs, adds, dials, Serial, nothing, then_performs,
}

pub some-injective {ℓ} : {A : Type ℓ} (a b : A) → some a ≡ some b → a ≡ b
some-injective a b q = cc

pub none≢some {ℓ} : {A : Type ℓ} (a : A) → none ≡ some a → ⊥
none≢some a q = cc

module _ (n : Network) where
  open n use {World, Session, Conn, intn, open_conn, close, key_string}

  -- What is left of a dial from here makes a whole dial of the map `m`.
  abbrev Completes : SessionManager n → NamespacedName → List Session → SessionManager n → Type 0
  Completes m key ss now =
      (r : Result Conn) (m' : SessionManager n)
      → DialRun n (key_string key) ss now r m'
      → DialRun n (key_string key) (sessions n m (key_string key)) m r m'

  abbrev Refused : List Session → ℕ → Session → Type 0
  Refused ss i s =
      (get_elem? ss i ≡ some s) × ((v : World) × (er : Error) × ((open_conn s v).0 ≡ err er))

  -- A body that has begun at the map `m` and left the map `now` so far.
  abbrev Begun : SessionManager n → Body n → SessionManager n → Type 0
  Begun m (add_reads key s) now = now ≡ m
  Begun m (add_writes key s ss) now = (now ≡ m) × (ss ≡ sessions n m (key_string key) ++ s ∷ [])
  Begun m (dial_reads key) now = now ≡ m
  Begun m (dial_tests key ss) now = Completes m key ss now
  Begun m (dial_opens key ss i) now = Completes m key ss now
  Begun m (dial_closes key ss i s) now = Completes m key ss now × Refused ss i s
  Begun m (dial_cuts key ss i s) now = Completes m key ss now × Refused ss i s
  Begun m (returns c r) now = Performs n m c r now

  moved :
      (m : SessionManager n) (x : Moved n) (b' : Body n) (now' : SessionManager n) (w' : World)
      → some x ≡ some (b', now', w')
      → Begun m x.0 x.1
      → Begun m b' now'
  moved m x b' now' w' e h =
      subst (λ (y : Moved n). Begun m y.0 y.1) (some-injective x (b', now', w') e) h

  enter-Begun : (m now : SessionManager n) (c : Call n) → now ≡ m → Begun m (enter n c) now
  enter-Begun m now (add key s) q = q
  enter-Begun m now (dial key) q = q

  pub waits≢holds : (c : Call n) (b : Body n) → ◌≡◌ {A = Pc n} (waits c) (holds b) → ⊥
  waits≢holds c b q = cc

  pub idle≢holds : (b : Body n) → ◌≡◌ {A = Pc n} idle (holds b) → ⊥
  idle≢holds b q = cc

  advance-Begun :
      (m now : SessionManager n) (w : World) (b b' : Body n) (now' : SessionManager n) (w' : World)
      → Begun m b now
      → advance n b now w ≡ some (b', now', w')
      → Begun m b' now'
  unfolding advance
  advance-Begun m now w (add_reads key s) b' now' w' begun e =
      moved m _ b' now' w' e (begun, ap (λ x. sessions n x (key_string key) ++ s ∷ []) begun)
  advance-Begun m now w (add_writes key s ss) b' now' w' (same, grown) e =
      moved m _ b' now' w' e (rw (same, grown) (unfold add_cluster_session in adds key s))
  advance-Begun m now w (dial_reads key) b' now' w' begun e = moved m _ b' now' w' e (λ r m' run.
      subst (λ x. DialRun n (key_string key) (sessions n x (key_string key)) x r m') begun run)
  advance-Begun m now w (dial_tests key []) b' now' w' begun e =
      moved m _ b' now' w' e (dials key _ now (begun _ now (none_left now)))
  advance-Begun m now w (dial_tests key (s ∷ rest)) b' now' w' begun e =
      moved m _ b' now' w' e begun
  advance-Begun m now w (dial_opens key ss i) b' now' w' begun e =
      elim (Option-cases (get_elem? ss i)) [
        | inl past ↦
            let stuck : advance n (dial_opens key ss i) now w ≡ none = rw (past, advance) in
            absurd (none≢some _ (sym stuck ∙ e))
        | inr (s, at) ↦ elim (Result-cases (open_conn s w).0) [
          | inl (conn, o) ↦
              let on : advance n (dial_opens key ss i) now w
                  ≡ some (returns (dial key) (dialled (ok conn)), now, (open_conn s w).1) =
                rw (at, o, advance) in
              moved m _ b' now' w' (sym on ∙ e)
                (dials key (ok conn) now (begun (ok conn) now (granted ss now i s w conn at o)))
          | inr (er, o) ↦
              let on : advance n (dial_opens key ss i) now w
                  ≡ some (dial_closes key ss i s, now, (open_conn s w).1) =
                rw (at, o, advance) in
              moved m _ b' now' w' (sym on ∙ e) (begun, (at, (w, er, o)))
        ]
      ]
  advance-Begun m now w (dial_closes key ss i s) b' now' w' begun e = moved m _ b' now' w' e begun
  advance-Begun m now w (dial_cuts key ss i s) b' now' w' (begun, (at, (v, er, refused))) e =
      moved m _ b' now' w' e (λ r m' run. begun r m' (dropped ss now m' i s v er r at refused run))
  advance-Begun m now w (returns c r) b' now' w' begun e = absurd (ground arith)

  -- The map that the completed calls leave, and how far the holder of the mutex has come from
  -- there.
  record Inv (s : System n) : Type 0 where
    settled : SessionManager n
    serial : Serial n s.log settled
    free : s.owner ≡ none → s.manager ≡ settled
    owned : (i : ℕ) (b : Body n) → s.threads i ≡ holds b → s.owner ≡ some i
    begun : (i : ℕ) (b : Body n) → s.threads i ≡ holds b → Begun settled b s.manager

  pub update_cases :
      (threads : ℕ → Pc n) (i j : ℕ) (pc : Pc n) (b : Body n)
      → update n threads i pc j ≡ holds b
      → ((i ≡ j) × (pc ≡ holds b)) ⊎ ((i ≢ j) × (threads j ≡ holds b))
  update_cases threads i j pc b e = elim (Bool-cases (nat_eq i j)) [
    | inl same ↦ inl (ground arith, ground arith)
    | inr other ↦ inr ((λ q. ground arith), ground arith)
  ]

  pub holds-injective : (a b : Body n) → ◌≡◌ {A = Pc n} (holds a) (holds b) → a ≡ b
  holds-injective a b q = cc

  Step-Inv : {s t : System n} → Step n s t → Inv s → Inv t
  Step-Inv {s} (calls i c at) v = record {
    settled = v.settled;
    serial = v.serial;
    free = v.free;
    owned = λ j b e. elim (update_cases s.threads i j (waits c) b e) [
      | inl (_, q) ↦ absurd (waits≢holds c b q)
      | inr (_, q) ↦ v.owned j b q
    ];
    begun = λ j b e. elim (update_cases s.threads i j (waits c) b e) [
      | inl (_, q) ↦ absurd (waits≢holds c b q)
      | inr (_, q) ↦ v.begun j b q
    ];
  }
  Step-Inv {s} (locks i c at unowned) v = record {
    settled = v.settled;
    serial = v.serial;
    free = λ q. absurd (none≢some i (sym q));
    owned = λ j b e. elim (update_cases s.threads i j (holds (enter n c)) b e) [
      | inl (q, _) ↦ ap some q
      | inr (_, q) ↦ absurd (none≢some j (sym unowned ∙ v.owned j b q))
    ];
    begun = λ j b e. elim (update_cases s.threads i j (holds (enter n c)) b e) [
      | inl (_, q) ↦
          subst (λ x. Begun v.settled x s.manager) (holds-injective _ b q)
            (enter-Begun v.settled s.manager c (v.free unowned))
      | inr (_, q) ↦ absurd (none≢some j (sym unowned ∙ v.owned j b q))
    ];
  }
  Step-Inv {s} (runs i b₀ b' m w at moves_on) v = record {
    settled = v.settled;
    serial = v.serial;
    free = λ q. absurd (none≢some i (sym q ∙ v.owned i b₀ at));
    owned = λ j b e. elim (update_cases s.threads i j (holds b') b e) [
      | inl (q, _) ↦ v.owned i b₀ at ∙ ap some q
      | inr (_, q) ↦ v.owned j b q
    ];
    begun = λ j b e. elim (update_cases s.threads i j (holds b') b e) [
      | inl (_, q) ↦
          subst (λ x. Begun v.settled x m) (holds-injective b' b q)
            (advance-Begun v.settled s.manager s.world b₀ b' m w (v.begun i b₀ at) moves_on)
      | inr (other, q) ↦ absurd (other (some-injective i j (sym (v.owned i b₀ at) ∙ v.owned j b q)))
    ];
  }
  Step-Inv {s} (unlocks i c r at) v = record {
    settled = s.manager;
    serial = then_performs s.log v.settled s.manager i c r v.serial (v.begun i (returns c r) at);
    free = λ q. refl;
    owned = λ j b e. elim (update_cases s.threads i j idle b e) [
      | inl (_, q) ↦ absurd (idle≢holds b q)
      | inr (other, q) ↦
          absurd (other (some-injective i j (sym (v.owned i (returns c r) at) ∙ v.owned j b q)))
    ];
    begun = λ j b e. elim (update_cases s.threads i j idle b e) [
      | inl (_, q) ↦ absurd (idle≢holds b q)
      | inr (other, q) ↦
          absurd (other (some-injective i j (sym (v.owned i (returns c r) at) ∙ v.owned j b q)))
    ];
  }
  Step-Inv (moves w) v = record {
    settled = v.settled;
    serial = v.serial;
    free = v.free;
    owned = v.owned;
    begun = v.begun;
  }

  Reach-Inv : {s : System n} → Reach n s → Inv s
  Reach-Inv (starts w) = record {
    settled = new_session_manager n;
    serial = nothing;
    free = λ q. refl;
    owned = λ i b e. absurd (idle≢holds b e);
    begun = λ i b e. absurd (idle≢holds b e);
  }
  Reach-Inv (steps r st) = Step-Inv st (Reach-Inv r)

  -- At most one goroutine is between `Lock` and `Unlock`.
  Reach-exclusive :
      {s : System n} (i j : ℕ) (a b : Body n)
      → Reach n s
      → s.threads i ≡ holds a
      → s.threads j ≡ holds b
      → i ≡ j
  Reach-exclusive i j a b r p q =
      let v = Reach-Inv r in some-injective i j (sym (v.owned i a p) ∙ v.owned j b q)

  pub Reach-settled : {s : System n} → Reach n s → (m : SessionManager n) × Serial n s.log m
  Reach-settled r = let v = Reach-Inv r in (v.settled, v.serial)

  -- In every interleaving of the goroutines' statements, in which the network moves at any time:
  -- while no goroutine has the mutex, the map is the one that the calls which have returned leave
  -- when each is made at one blow, in the order in which they unlocked, from the empty map and with
  -- the same replies.
  pub Reach-Serial : {s : System n} → Reach n s → s.owner ≡ none → Serial n s.log s.manager
  Reach-Serial {s} r unlocked =
      let v = Reach-Inv r in subst (Serial n s.log) (sym (v.free unlocked)) v.serial
