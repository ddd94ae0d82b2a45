-- ===== src/Fake/Making.antt =====
-- pkg/client/clientset/versioned/fake/clientset_generated.go: the fake clientset and its getters.
use kopilot.Base.{
  List, [], ◌∷◌, Bool, true, false, Option, none, some, Error, ok, err, Outcome, done, panicked,
  ◌>>=◌,
}
use kopilot.Client.{Rest}
use kopilot.Fake.{Testing, Action, FakeKopilot}

module _ {g : Rest} (t : Testing g) where
  open g use {World}
  open t use {
    Object, Watch, Fake, Tracker, new_object_tracker, tracker_add, tracker_watch, object_reaction,
    get_resource, get_namespace, new_fake, add_reactor, add_watch_reactor,
  }

  -- `o.Add` for each object; an error is a panic.
  unfoldable pub add_objects : Tracker → List Object → World → Outcome World
  add_objects o [] w = done w
  add_objects o (obj ∷ rest) w =
      let (er, w') = tracker_add o obj w in
      elim er [ none ↦ add_objects o rest w' | some e ↦ panicked ]

  -- The closure given to `AddWatchReactor`: whether it has handled the action, and its results.
  unfoldable pub watch_reaction :
      Tracker → Action g → World → (Bool × Option Watch × Option Error) × World
  watch_reaction o action w =
      let (r, w') = tracker_watch o (get_resource action) (get_namespace action) w in
      elim r [ err e ↦ ((false, none, some e), w') | ok watch ↦ ((true, some watch, none), w') ]

  -- `FakeDiscovery` of client-go's package fake.
  pub record FakeDiscovery : Type 0 where
    pub fake : Fake

  -- `fake.Clientset`; the `testing.Fake` that it embeds is the pointer to it.
  pub record FakeClientset : Type 0 where
    pub fake : Fake
    pub discovery : FakeDiscovery
    pub tracker : Tracker

  -- `NewSimpleClientset`.
  unfoldable pub new_simple_clientset : List Object → World → Outcome (FakeClientset × World)
  new_simple_clientset objects w = do
    let (o, w₁) = new_object_tracker w
    w₂ ← add_objects o objects w₁
    let (fake, w₃) = new_fake w₂
    let w₄ = add_reactor fake "*" "*" (object_reaction o) w₃
    let w₅ = add_watch_reactor fake "*" (watch_reaction o) w₄
    done (record { fake = fake; discovery = record { fake = fake }; tracker = o }, w₅)

  -- `Discovery`, `Tracker` and `KopilotV1alpha1` of `*Clientset`.
  unfoldable pub fake_discovery_of : FakeClientset → FakeDiscovery
  fake_discovery_of cs = cs.discovery

  unfoldable pub fake_tracker_of : FakeClientset → Tracker
  fake_tracker_of cs = cs.tracker

  unfoldable pub fake_kopilot_of : FakeClientset → FakeKopilot t
  fake_kopilot_of cs = record { fake = cs.fake }
