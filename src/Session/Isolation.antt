-- ===== src/Session/Isolation.antt =====
-- Histories of a hub's registry: which sessions a dial for a cluster may use.
use Prim.Native.String
use kopilot.Base.{
  ◌⊎◌, inl, inr, All-get_elem?, All, All-append, All-map, lookup, All-remove_at, SlashFree,
  slash_split, Bool-cases, eq_iff, ◌==◌, subst, done-injective, suc, ◌≡◌, refl, ◌∙◌, sym, String,
  List, [], ◌∷◌, arith, ok, Outcome, done,
}
use kopilot.Api.{NamespacedName}
use kopilot.Session.{
  Network, SessionManager, Dialled, new_session_manager, sessions, dial_cluster,
  add_cluster_session, IntnInRange,
}
use kopilot.Session.Loop.{Rule, dial_induction}
use kopilot.Session.Dialling.{
  sessions-store, sessions-store_other, Answered, trivial_closing, dial_cluster-Contract,
}
use kopilot.Session.Failover.{sessions-add_cluster_session}

module _ (n : Network) where
  open n use {World, Session, Conn, intn, open_conn, close, key_string}

  -- The registry in its world, with the log of all that was registered, latest first.
  pub record Hub : Type 0 where
    pub manager : SessionManager n
    pub world : World
    pub log : List (NamespacedName × Session)

  -- Calls from concurrent handlers take their turns at the mutex; the network moves by itself.
  pub data Step (h : Hub) : Hub → Type 0 where
    adds :
        (key : NamespacedName) (s : Session)
        → Step h (record {
          manager = add_cluster_session n key s h.manager;
          world = h.world;
          log = (key, s) ∷ h.log;
        })
    dials :
        (key : NamespacedName) (d : Dialled n)
        → dial_cluster n key h.manager h.world ≡ done d
        → Step h (record { manager = d.1; world = d.2; log = h.log })
    moves : (w : World) → Step h (record { manager = h.manager; world = w; log = h.log })

  pub data Reach : Hub → Type 0 where
    starts : (w : World) → Reach (record { manager = new_session_manager n; world = w; log = [] })
    steps : {h k : Hub} → Reach h → Step h k → Reach k

  -- The session was registered under a key of this text.
  abbrev pub IsLogged : String → Session → List (NamespacedName × Session) → Type 0
  IsLogged id s [] = ⊥
  IsLogged id s ((key, t) ∷ log) = ((key_string key ≡ id) × (t ≡ s)) ⊎ IsLogged id s log

  abbrev pub AllLogged : Hub → Type 0
  AllLogged h = (id : String) → All (λ s. IsLogged id s h.log) (sessions n h.manager id)

  module _ (in_range : IntnInRange n) (P : Session → Type 0) (id : String) where
    Keeps : List Session → SessionManager n → World → Outcome (Dialled n) → Type 0
    Keeps ss m w o =
        sessions n m id ≡ ss
        → (d : Dialled n) × (o ≡ done d)
          × (All P ss → All P (sessions n d.1 id))
          × ((j : String) → ¬ (id ≡ j) → sessions n d.1 j ≡ sessions n m j)

    Rule-Keeps : Rule n id Keeps
    unfolding Keeps
    Rule-Keeps = record {
      empty = λ m w same. ((_, m, w), refl, λ a. rw same a, λ j h. refl);
      opened = λ ss m w i s conn at e same. ((ok conn, m, _), refl, λ a. rw same a, λ j h. refl);
      failed = λ ss m w i s e o at failed rest same.
          let (d, eq, all, other) = rest (sessions-store n m id _) in
          (
            d,
            eq,
            λ a. all (All-remove_at P ss i a),
            λ j h. other j h ∙ sessions-store_other n m id j _ h,
          );
    }

  dial_cluster-Keeps :
      (in_range : IntnInRange n) (P : Session → Type 0) (key : NamespacedName)
      (m : SessionManager n) (w : World) (d : Dialled n)
      → dial_cluster n key m w ≡ done d
      → (All P (sessions n m (key_string key)) → All P (sessions n d.1 (key_string key)))
        × ((j : String) → ¬ (key_string key ≡ j) → sessions n d.1 j ≡ sessions n m j)
  unfolding dial_cluster Keeps
  dial_cluster-Keeps in_range P key m w d e =
      let id = key_string key in
      let (d', eq, keeps) = found in
      subst
        (λ (x : Dialled n).
          (All P (sessions n m id) → All P (sessions n x.1 id))
          × ((j : String) → ¬ (id ≡ j) → sessions n x.1 j ≡ sessions n m j))
        (done-injective d' d (sym eq ∙ e)) keeps
    where
      found :
          (x : Dialled n) × (dial_cluster n key m w ≡ done x)
          × ((All P (sessions n m (key_string key)) → All P (sessions n x.1 (key_string key)))
              × ((j : String) → ¬ (key_string key ≡ j) → sessions n x.1 j ≡ sessions n m j))
      found =
          let (x, eq, all, other) =
            dial_induction n in_range (key_string key) (Keeps in_range P (key_string key))
              (Rule-Keeps in_range P (key_string key)) (suc _) (sessions n m (key_string key)) m w
              (omega arith) refl in
          (x, eq, (all, other))

  -- A dial for one cluster leaves what is registered for every other cluster, if `rand.Intn` keeps
  -- to its range.
  dial_cluster-other :
      (in_range : IntnInRange n) (key : NamespacedName) (m : SessionManager n) (w : World)
      (d : Dialled n) (j : String)
      → dial_cluster n key m w ≡ done d
      → ¬ (key_string key ≡ j)
      → sessions n d.1 j ≡ sessions n m j
  dial_cluster-other in_range key m w d j e h =
      (dial_cluster-Keeps in_range (λ _. Unit {0}) key m w d e).1 j h

  dials-AllLogged :
      (in_range : IntnInRange n) (h : Hub) (key : NamespacedName) (d : Dialled n)
      → dial_cluster n key h.manager h.world ≡ done d
      → AllLogged h
      → AllLogged (record { manager = d.1; world = d.2; log = h.log })
  dials-AllLogged in_range h key d e logged id =
      let P = λ (s : Session). IsLogged id s h.log in
      let (all, other) = dial_cluster-Keeps in_range P key h.manager h.world d e in
      elim (Bool-cases (key_string key == id)) [
        | inl same ↦
            let q = (eq_iff (key_string key) id).0 same in
            subst (λ j. All P (sessions n h.manager j) → All P (sessions n d.1 j)) q all (logged id)
        | inr apart ↦
            subst (All P) (sym (other id (λ q. ground (arith, eq_iff (key_string key) id))))
              (logged id)
      ]

  adds-AllLogged :
      (h : Hub) (key : NamespacedName) (s : Session)
      → AllLogged h
      → (id : String)
      → All
          (λ t. IsLogged id t ((key, s) ∷ h.log))
          (sessions n (add_cluster_session n key s h.manager) id)
  adds-AllLogged h key s logged id =
      let Q = λ (t : Session). IsLogged id t ((key, s) ∷ h.log) in
      let old : All Q (sessions n h.manager id) =
        All-map (sessions n h.manager id) (λ t. inr) (logged id) in
      subst (All Q) (sym (sessions-add_cluster_session n key s h.manager id))
        (elim (Bool-cases (key_string key == id)) [
          | inl same ↦
              rw same (All-append Q _ _ old (inl ((eq_iff (key_string key) id).0 same, refl), tt))
          | inr apart ↦ rw apart old
        ])

  Reach-AllLogged : (in_range : IntnInRange n) {h : Hub} → Reach h → AllLogged h
  unfolding new_session_manager lookup
  Reach-AllLogged in_range (starts w) id = tt
  Reach-AllLogged in_range (steps {h} r (adds key s)) id =
      adds-AllLogged h key s (Reach-AllLogged in_range r) id
  Reach-AllLogged in_range (steps {h} r (dials key d e)) id =
      dials-AllLogged in_range h key d e (Reach-AllLogged in_range r) id
  Reach-AllLogged in_range (steps r (moves w)) id = Reach-AllLogged in_range r id

  -- Documented of apimachinery: the namespace, a slash, the name.
  abbrev pub IsJoined : Type 0
  IsJoined =
      (key : NamespacedName) → key_string key ≡ String.◌++◌ key.namespace (String.◌++◌ "/" key.name)

  -- The session was registered for this very key.
  abbrev pub IsRegistered : NamespacedName → Session → List (NamespacedName × Session) → Type 0
  IsRegistered key s [] = ⊥
  IsRegistered key s ((k, t) ∷ log) = ((k ≡ key) × (t ≡ s)) ⊎ IsRegistered key s log

  IsLogged-IsRegistered :
      (joined : IsJoined) (key : NamespacedName) (s : Session)
      (log : List (NamespacedName × Session))
      → SlashFree key.namespace
      → All (λ b. SlashFree b.0.namespace) log
      → IsLogged (key_string key) s log
      → IsRegistered key s log
  IsLogged-IsRegistered joined key s [] free all l = l
  IsLogged-IsRegistered joined key s ((k, t) ∷ log) free (f, fs) (inl (same, e)) =
      let (ns, nm) =
        slash_split k.namespace key.namespace k.name key.name f free
          (sym (joined k) ∙ same ∙ joined key) in
      inl ((λ i. record { namespace = ns i; name = nm i }), e)
  IsLogged-IsRegistered joined key s ((k, t) ∷ log) free (f, fs) (inr l) =
      inr (IsLogged-IsRegistered joined key s log free fs l)

  -- In every history that concurrent handlers can make, the connection that a dial for a cluster
  -- gets was opened on a session registered for that cluster. Assumed: `rand.Intn` keeps to its
  -- range, keys are written namespace, slash, name, and no namespace has a slash in it.
  pub dial_cluster-IsRegistered :
      (in_range : IntnInRange n) (joined : IsJoined) {h : Hub} (r : Reach h) (key : NamespacedName)
      (conn : Conn) (m : SessionManager n) (w : World)
      → SlashFree key.namespace
      → All (λ b. SlashFree b.0.namespace) h.log
      → dial_cluster n key h.manager h.world ≡ done (ok conn, m, w)
      → (s : Session) × (v : World) × IsRegistered key s h.log × ((open_conn s v).0 ≡ ok conn)
  dial_cluster-IsRegistered in_range joined {h} r key conn m w free frees e =
      let id = key_string key in
      let after = Reach-AllLogged in_range (steps r (dials key _ e)) id in
      let (d, eq, contract) =
        dial_cluster-Contract n in_range (trivial_closing n) key h.manager h.world in
      let (i, s, v, at, opened) =
        subst (Answered n id) (done-injective d (ok conn, m, w) (sym eq ∙ e)) contract.answered in
      (
        s,
        v,
        IsLogged-IsRegistered joined key s h.log free frees
            (All-get_elem? (λ t. IsLogged id t h.log) (sessions n m id) i s after at),
        opened,
      )
