-- ===== src/Webhook.antt =====
-- pkg/webhook/cluster/mutator.go and validator.go: the admission webhooks for `Cluster` objects.
pub mod Admission
pub mod Serving
use kopilot.Base.{
  ℕ, ltb, length, String, List, [], ◌∷◌, ◌++◌, Bool, Option, none, some, if◌then◌else◌, ◌==◌, Error,
  Result, ok, err, Outcome, done, panicked,
}
use kopilot.Api.{Kube, Cluster}

-- What the webhooks call and the repository does not implement.
pub record Runtime : Type 1 where
  pub kube : Kube
  pub World : Type 0
  -- JSON texts, admission requests, and `req.Object.Raw`.
  pub Raw : Type 0
  pub AdmissionRequest : Type 0
  pub raw_object : AdmissionRequest → Raw
  -- `(*admission.Decoder).Decode` into a cluster, and `json.Marshal`.
  pub Decoder : Type 0
  pub decode : Decoder → AdmissionRequest → Result (Cluster kube)
  pub marshal : Cluster kube → Result Raw
  -- `uuid.New().String()`.
  pub new_uuid : World → String × World
  -- `field.Required(field.NewPath(name), detail)`, and `errs.ToAggregate().Error()`.
  pub FieldError : Type 0
  pub required : String → String → FieldError
  pub aggregate : List FieldError → String

-- The constructors of `admission.Response` that are used. `patch_from_raw` carries the object as
-- it was and as it shall be.
pub data AdmissionResponse (t : Runtime) : Type 0 where
  errored : ℕ → Error → AdmissionResponse t
  patch_from_raw : t.Raw → t.Raw → AdmissionResponse t
  denied : String → AdmissionResponse t
  allowed : String → AdmissionResponse t

-- `Mutator` and `Validator` hold a decoder, nil until it is injected.
pub record Webhook (t : Runtime) : Type 0 where
  pub decoder : Option t.Decoder

module _ (t : Runtime) where
  open t use {
    kube, World, AdmissionRequest, Decoder, raw_object, decode, marshal, new_uuid, FieldError,
    required, aggregate,
  }

  -- `NewMutator` and `NewValidator`.
  abbrev pub new_webhook : Webhook t
  new_webhook = record { decoder = none }

  -- `InjectDecoder`.
  unfoldable pub inject_decoder : Decoder → Webhook t → Webhook t
  inject_decoder d h = record { decoder = some d }

  -- `if cluster.Token == ""`.
  unfoldable pub with_default_token : Cluster kube → World → Cluster kube × World
  with_default_token cluster w =
      if cluster.token == ""
      then (let (id, w') = new_uuid w in (record cluster { token = id }, w'))
      else (cluster, w)

  -- `(*Mutator).Handle`. A decoder that was not injected is a nil pointer.
  unfoldable pub mutate :
      Webhook t → AdmissionRequest → World → Outcome (AdmissionResponse t × World)
  mutate h req w = elim h.decoder [
    | none ↦ panicked
    | some d ↦ elim (decode d req) [
      | err er ↦ done (errored 400 er, w)
      | ok cluster ↦
          let (cluster', w') = with_default_token cluster w in
          elim (marshal cluster') [
            | err er ↦ done (errored 500 er, w')
            | ok marshaled ↦ done (patch_from_raw (raw_object req) marshaled, w')
          ]
    ]
  ]

  -- The field errors of a cluster.
  unfoldable pub field_errors : Cluster kube → List FieldError
  field_errors cluster = if cluster.token == "" then required "token" "" ∷ [] else []

  -- `(*Validator).Handle`.
  unfoldable pub validate : Webhook t → AdmissionRequest → Outcome (AdmissionResponse t)
  unfolding field_errors
  validate h req = elim h.decoder [
    | none ↦ panicked
    | some d ↦ elim (decode d req) [
      | err er ↦ done (errored 400 er)
      | ok cluster ↦
          let errs = field_errors cluster in
          if ltb 0 (length errs) then done (denied (aggregate errs)) else done (allowed "")
    ]
  ]
