-- ===== src/Webhook/Serving.antt =====
-- cmd/kopilot-webhook/main.go: the program that serves the two webhooks.
pub mod Admitting
use kopilot.Base.{
  ℕ, String, List, [], ◌∷◌, Option, none, some, Table, lookup, Error, Result, ok, err, Outcome,
  done, ◌>>=◌,
}
use kopilot.Webhook.{Runtime, AdmissionResponse, new_webhook, inject_decoder, mutate, validate}

-- A handler under a path of the webhook server, as `webhook.Admission` runs it.
abbrev pub Route : Runtime → Type 0
Route t = t.AdmissionRequest → t.World → Outcome (AdmissionResponse t × t.World)

-- The manager with its webhook server. `decoder` is what controller-runtime injects into a handler
-- that is registered.
pub record WebhookServer (t : Runtime) : Type 0 where
  pub port : ℕ
  pub decoder : t.Decoder
  pub routes : Table (Route t)

-- controller-runtime: `GetConfigOrDie` with `NewManager` for a port, by the decoder of the
-- manager's scheme, where no configuration is an error too; and `Start`.
pub record Controller (t : Runtime) : Type 0 where
  pub new_manager : ℕ → t.World → Result t.Decoder × t.World
  pub start : WebhookServer t → t.World → Option Error × t.World

-- The flag "bind-port".
abbrev pub bind_port : Option ℕ → ℕ
bind_port none = 9443
bind_port (some port) = port

module _ (t : Runtime) where
  open t use {World, Decoder}

  -- `&webhook.Admission{Handler: cluster.NewMutator()}`, and of the validator.
  unfoldable pub mutator_route : Decoder → Route t
  mutator_route d req w = mutate t (inject_decoder t d (new_webhook t)) req w

  unfoldable pub validator_route : Decoder → Route t
  validator_route d req w = do r ← validate t (inject_decoder t d (new_webhook t)) req; done (r, w)

  -- The two calls of `Register`.
  unfoldable pub registered : Decoder → Table (Route t)
  registered d =
      ("/mutate-v1alpha1-cluster", mutator_route d)
      ∷ ("/validate-v1alpha1-cluster", validator_route d)
      ∷ []

  -- A request to a path of the server: none where nothing is registered.
  unfoldable pub call :
      WebhookServer t
      → String
      → t.AdmissionRequest
      → World
      → Option (Outcome (AdmissionResponse t × World))
  call s path req w = elim (lookup path s.routes) [ none ↦ none | some route ↦ some (route req w) ]

  module _ (k : Controller t) where
    -- `main` up to `Start`.
    unfoldable pub set_up_webhooks : Option ℕ → World → Result (WebhookServer t) × World
    set_up_webhooks flag w =
        let (made, w') = k.new_manager (bind_port flag) w in
        elim made [
          | err e ↦ (err e, w')
          | ok d ↦ (ok (record { port = bind_port flag; decoder = d; routes = registered d }), w')
        ]

    -- `main`, by the status with which the process exits.
    unfoldable pub webhook_main : Option ℕ → World → ℕ × World
    webhook_main flag w =
        let (made, w₁) = set_up_webhooks flag w in
        elim made [
          | err e ↦ (1, w₁)
          | ok s ↦
              let (failed, w₂) = k.start s w₁ in elim failed [ none ↦ (0, w₂) | some e ↦ (1, w₂) ]
        ]
