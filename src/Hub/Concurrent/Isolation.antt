-- ===== src/Hub/Concurrent/Isolation.antt =====
-- Requests that run at once never get at a session whose cluster's token nobody showed.
use kopilot.Base.{
  ℕ, nat_eq, ◌≡◌, refl, sym, subst, inl, inr, List, [], ◌∷◌, map, In, All, Bool-cases, ok, done,
  SlashFree,
}
use kopilot.Api.{NamespacedName}
use kopilot.Session.{SessionManager, dial_cluster, IntnInRange}
use kopilot.Session.Isolation as Registry
use kopilot.Session.Isolation.{IsJoined, IsRegistered, dial_cluster-IsRegistered}
use kopilot.Hub.{Env}
use kopilot.Hub.Config.{Config}
use kopilot.Hub.Concurrent.System.{
  Goroutine, Registration, System, set, Step, accepts, asking, adding, dialling, moving, Reach,
  starts, steps, Shows,
}
use kopilot.Hub.Concurrent.Showing.{AddsShown, Handles-AddsShown}

module _ (e : Env) (c : Config) where
  open e use {World, Session, Conn, open_conn}

  abbrev IsSafe : Goroutine e c → Type 0
  IsSafe g = AddsShown e c g.request g.met g.rest

  abbrev WasShown : Registration e c → Type 0
  WasShown g = Shows e c g.key g.request g.met

  abbrev entry : Registration e c → NamespacedName × Session
  entry g = (g.key, g.session)

  -- What holds in every state: the registry has a history of its own, and each registration was
  -- shown its cluster's token, as is each that a goroutine can still make.
  record Inv (s : System e c) : Type 0 where
    history :
        Registry.Reach e.net
          (record { manager = s.manager; world = s.world; log = map entry s.log })
    shown : All WasShown s.log
    safe : (i : ℕ) → IsSafe (s.goroutines i)

  set-IsSafe :
      (gs : ℕ → Goroutine e c) (i : ℕ) (g : Goroutine e c)
      → ((j : ℕ) → IsSafe (gs j))
      → IsSafe g
      → (j : ℕ) → IsSafe (set e c gs i g j)
  set-IsSafe gs i g safe new j = elim (Bool-cases (nat_eq i j)) [
    | inl h ↦ rw h new
    | inr h ↦ rw h (safe j)
  ]

  Step-Inv : {s t : System e c} → Step e c s t → Inv s → Inv t
  unfolding AddsShown
  Step-Inv {s} (accepts i service w w' r handles idle) inv = record {
    history = inv.history;
    shown = inv.shown;
    safe = set-IsSafe s.goroutines i _ inv.safe (Handles-AddsShown e c handles w r);
  }
  Step-Inv {s} (asking i move k eq) inv = record {
    history = Registry.steps inv.history (Registry.moves (move s.world));
    shown = inv.shown;
    safe = set-IsSafe s.goroutines i _ inv.safe (
        subst (AddsShown e c (s.goroutines i).request (s.goroutines i).met) eq (inv.safe i)
          s.world);
  }
  Step-Inv {s} (adding i key sess k eq) inv =
      let (shows, later) =
        subst (AddsShown e c (s.goroutines i).request (s.goroutines i).met) eq (inv.safe i) in
      record {
        history = Registry.steps inv.history (Registry.adds key sess);
        shown = (shows, inv.shown);
        safe = set-IsSafe s.goroutines i _ inv.safe later;
      }
  Step-Inv {s} (dialling i key k d eq dials) inv = record {
    history = Registry.steps inv.history (Registry.dials key d dials);
    shown = inv.shown;
    safe =
        set-IsSafe s.goroutines i _ inv.safe
          (subst (AddsShown e c (s.goroutines i).request (s.goroutines i).met) eq (inv.safe i) d.0);
  }
  Step-Inv {s} (moving v) inv = record {
    history = Registry.steps inv.history (Registry.moves v);
    shown = inv.shown;
    safe = inv.safe;
  }

  Reach-Inv : {s : System e c} → Reach e c s → Inv s
  unfolding AddsShown
  Reach-Inv (starts r w v) = record { history = Registry.starts v; shown = tt; safe = λ i. tt }
  Reach-Inv (steps r st) = Step-Inv st (Reach-Inv r)

  find_registration :
      (key : NamespacedName) (sess : Session) (log : List (Registration e c))
      → All WasShown log
      → IsRegistered e.net key sess (map entry log)
      → (g : Registration e c) × In g log
        × (g.key ≡ key)
        × (g.session ≡ sess)
        × Shows e c key g.request g.met
  find_registration key sess [] shown i = absurd i
  find_registration key sess (g ∷ log) (here, later) (inl (same_key, same)) =
      (g, inl refl, same_key, same, subst (λ k. Shows e c k g.request g.met) same_key here)
  find_registration key sess (g ∷ log) (here, later) (inr i) =
      let (h, member, same_key, same, shows) = find_registration key sess log later i in
      (h, inr member, same_key, same, shows)

  All-entry :
      (log : List (Registration e c))
      → All (λ g. SlashFree g.key.namespace) log
      → All (λ (b : NamespacedName × Session). SlashFree b.0.namespace) (map entry log)
  All-entry [] h = tt
  All-entry (g ∷ log) (h, hs) = (h, All-entry log hs)

  -- However the calls of concurrent requests interleave, the connection that a dial for a cluster
  -- gets was opened on a session that some request registered for this very cluster, after the same
  -- request had looked the cluster up and shown the token that it found there. Assumed: `rand.Intn`
  -- keeps to its range, keys are written namespace, slash, name, and neither the cluster's
  -- namespace nor that of a registered key has a slash.
  pub dial_cluster-WasShown :
      (in_range : IntnInRange e.net) (joined : IsJoined e.net) {s : System e c} (r : Reach e c s)
      (key : NamespacedName) (conn : Conn) (m : SessionManager e.net) (v : World)
      → SlashFree key.namespace
      → All (λ g. SlashFree g.key.namespace) s.log
      → dial_cluster e.net key s.manager s.world ≡ done (ok conn, m, v)
      → (g : Registration e c) × (u : World) × In g s.log
        × (g.key ≡ key)
        × ((open_conn g.session u).0 ≡ ok conn)
        × Shows e c key g.request g.met
  dial_cluster-WasShown in_range joined {s} r key conn m v free frees eq =
      let inv = Reach-Inv r in
      let (sess, u, registered, opened) =
        dial_cluster-IsRegistered e.net in_range joined inv.history key conn m v free
          (All-entry s.log frees) eq in
      let (g, member, same_key, same, shows) =
        find_registration key sess s.log inv.shown registered in
      (g, u, member, same_key, subst (λ x. (open_conn x u).0 ≡ ok conn) (sym same) opened, shows)
