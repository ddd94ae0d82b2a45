-- ===== src/Session/Slices.antt =====
-- pkg/hub/cluster/session_manager.go once more, with its slices as Go has them: a header of an
-- array and a length, over a memory of arrays that `append` writes to in place.
pub mod Memory
pub mod Representing
pub mod Writing
pub mod Adding
pub mod Refining
pub mod Running
use kopilot.Base.{
  ℕ, zero, suc, ◌+◌, ◌-◌, String, List, [], ◌∷◌, ◌++◌, true, false, Option, none, some, Table,
  lookup, insert, if◌then◌else◌, ltb, nat_eq, length, get_elem?, take, drop, Result, ok, err,
  Outcome, done, panicked, starved,
}
use kopilot.Api.{NamespacedName}
use kopilot.Session.{Network, no_session}
use Memory.{Slice, Heap, nil_slice, view, append_one, delete_at, make_empty}

-- `sessionManager`. A key that is missing stands for a nil slice.
pub record SliceManager (n : Network) : Type 0 where
  pub session_lists : Table Slice
  pub heap : Heap n.Session

module _ (n : Network) where
  open n use {World, Session, Conn, intn, open_conn, close, key_string}

  abbrev pub slice_of : SliceManager n → String → Slice
  slice_of c id = elim (lookup id c.session_lists) [ none ↦ nil_slice | some ss ↦ ss ]

  abbrev pub put_slice : SliceManager n → String → Slice × Heap Session → SliceManager n
  put_slice c id (ss, h) = record { session_lists = insert id ss c.session_lists; heap = h }

  unfoldable pub new_slice_manager : SliceManager n
  new_slice_manager = record { session_lists = []; heap = record { next = 0; cells = λ r. [] } }

  abbrev pub DialledInPlace : Type 0
  DialledInPlace = Result Conn × SliceManager n × World

  -- The loop of `DialCluster`. The local `ss` and the map's entry share their array.
  unfoldable pub dial_in_place :
      ℕ → String → Slice → SliceManager n → World → Outcome DialledInPlace
  dial_in_place zero id ss c w = starved
  dial_in_place (suc fuel) id ss c w = elim (nat_eq ss.len 0) [
    | true ↦ done (err (no_session n id), c, w)
    | false ↦
        let (idx, w₁) = intn ss.len w in
        elim (get_elem? (view ss c.heap) idx) [
          | none ↦ panicked
          | some s ↦
              let (r, w₂) = open_conn s w₁ in
              elim r [
                | ok conn ↦ done (ok conn, c, w₂)
                | err e ↦
                    let (ss', h) = delete_at idx ss c.heap in
                    dial_in_place fuel id ss' (put_slice c id (ss', h)) (close s w₂)
              ]
        ]
  ]

  unfoldable pub dial_cluster_in_place :
      NamespacedName → SliceManager n → World → Outcome DialledInPlace
  dial_cluster_in_place key c w =
      let id = key_string key in let ss = slice_of c id in dial_in_place (suc ss.len) id ss c w

-- `spare` is what `append` leaves behind the elements of an array that it allocates, by their
-- number: Go's growth of slices.
module _ (n : Network) (spare : ℕ → List n.Session) where
  open n use {Session, key_string}

  -- `AddClusterSession`: a nil slice becomes an empty one first.
  unfoldable pub add_in_place : NamespacedName → Session → SliceManager n → SliceManager n
  add_in_place key s c =
      let id = key_string key in
      let found : Slice × Heap Session = elim (lookup id c.session_lists) [
        | none ↦ make_empty c.heap
        | some old ↦ (old, c.heap)
      ] in
      put_slice n c id (append_one spare s found.0 found.1)
