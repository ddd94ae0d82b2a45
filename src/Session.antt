-- ===== src/Session.antt =====
-- pkg/hub/cluster/session_manager.go: the yamux sessions of the connected agents, by cluster. Each
-- method holds the mutex from its first statement to its return, so a call is one step here. Log
-- lines are left out. yamux and math/rand enter through `Network`.
mod Loop
pub mod Dialling
pub mod Failover
pub mod Isolation
pub mod Slices
pub mod Interleaving
use Prim.Native.String.{◌++◌}
use kopilot.Base.{
  ℕ, zero, suc, ◌<◌, String, List, [], ◌∷◌, Option, none, some, Table, lookup, insert, length,
  get_elem?, remove_at, Error, errorf, Result, ok, err, Outcome, done, panicked, starved,
}
use kopilot.Base
use kopilot.Api.{NamespacedName}

-- What a manager calls and the repository does not implement. `World` is the state of all that.
pub record Network : Type 1 where
  pub World : Type 0
  pub Session : Type 0
  pub Conn : Type 0
  -- `rand.Intn(n)`.
  pub intn : ℕ → World → ℕ × World
  -- `(*yamux.Session).Open` and `Close`; what `Close` returns is dropped.
  pub open_conn : Session → World → Result Conn × World
  pub close : Session → World → World
  -- `types.NamespacedName.String`, and the verb `%q` of package fmt.
  pub key_string : NamespacedName → String
  pub quote : String → String

pub record SessionManager (n : Network) : Type 0 where
  pub session_lists : Table (List n.Session)

module _ (n : Network) where
  open n use {World, Session, Conn, intn, open_conn, close, key_string, quote}

  unfoldable pub new_session_manager : SessionManager n
  new_session_manager = record { session_lists = [] }

  -- `m.sessionLists[id]`: nil where the key is missing.
  abbrev pub sessions : SessionManager n → String → List Session
  sessions m id = elim (lookup id m.session_lists) [ none ↦ [] | some ss ↦ ss ]

  abbrev pub store : SessionManager n → String → List Session → SessionManager n
  store m id ss = record { session_lists = insert id ss m.session_lists }

  unfoldable pub add_cluster_session :
      NamespacedName → Session → SessionManager n → SessionManager n
  add_cluster_session key s m =
      let id = key_string key in store m id (Base.◌++◌ (sessions m id) (s ∷ []))

  -- `fmt.Errorf("no session found for cluster %q", id)`.
  abbrev pub no_session : String → Error
  no_session id = errorf ("no session found for cluster " ++ quote id)

  -- What a dial leaves: its result, the manager and the world.
  abbrev pub Dialled : Type 0
  Dialled = Result Conn × SessionManager n × World

  -- The `for` loop over the local `ss`, on fuel: a round returns or drops one session.
  unfoldable pub dial : ℕ → String → List Session → SessionManager n → World → Outcome Dialled
  dial zero id ss m w = starved
  dial (suc fuel) id [] m w = done (err (no_session id), m, w)
  dial (suc fuel) id (s₀ ∷ rest) m w =
      let ss = s₀ ∷ rest in
      let (idx, w₁) = intn (length ss) w in
      elim (get_elem? ss idx) [
        | none ↦ panicked
        | some s ↦
            let (r, w₂) = open_conn s w₁ in
            elim r [
              | ok conn ↦ done (ok conn, m, w₂)
              | err e ↦ let ss' = remove_at ss idx in dial fuel id ss' (store m id ss') (close s w₂)
            ]
      ]

  unfoldable pub dial_cluster : NamespacedName → SessionManager n → World → Outcome Dialled
  dial_cluster key m w =
      let id = key_string key in let ss = sessions m id in dial (suc (length ss)) id ss m w

  -- `rand.Intn(k)` lies below `k`; it is called for `0 < k` only.
  abbrev pub IntnInRange : Type 0
  IntnInRange = (k : ℕ) (w : World) → 0 < k → (intn k w).0 < k
