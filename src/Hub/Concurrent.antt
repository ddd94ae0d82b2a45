-- ===== src/Hub/Concurrent.antt =====
-- The handlers of pkg/hub/cluster/subresources.go and pkg/hub/peer/server.go once more, cut at
-- every call that reaches out of the goroutine of a request: what is left of a handler is a
-- `Routine`, and other requests go on between its calls.
pub mod Serving
pub mod Handlers
pub mod Whole
pub mod System
mod Obeying
mod Showing
pub mod Isolation
pub mod Progress
use kopilot.Base.{Result}
use kopilot.Api.{NamespacedName}
use kopilot.Hub.{Env}

-- A computation by calls: on the world outside, and on the session manager, whose mutex makes each
-- of its calls one step. `asks` gives the world that a call leaves, and the rest by the world that
-- it met.
pub data Routine (e : Env) (A : Type 0) : Type 0 where
  answers : A → Routine e A
  panics starves : Routine e A
  asks : (e.World → e.World) → (e.World → Routine e A) → Routine e A
  adds : NamespacedName → e.Session → Routine e A → Routine e A
  dials : NamespacedName → (Result e.Conn → Routine e A) → Routine e A

infixl 5 ◌>>=◌
unfoldable pub ◌>>=◌ : {e : Env} {A B : Type 0} → Routine e A → (A → Routine e B) → Routine e B
answers a >>= f = f a
panics >>= f = panics
starves >>= f = starves
asks move k >>= f = asks move (λ v. k v >>= f)
adds key sess k >>= f = adds key sess (k >>= f)
dials key k >>= f = dials key (λ r. k r >>= f)

-- One call on the world.
abbrev pub ask : {e : Env} {A : Type 0} → (e.World → A × e.World) → Routine e A
ask f = asks (λ v. (f v).1) (λ v. answers (f v).0)
