-- ===== src/Inference.antt =====
-- src/modules/inference-gateway: the contract of a model provider, the offline provider, and the gateway
-- with its cache of completions. The names of models and the temperature are left out of what is
-- answered.
pub mod Cached
mod Tests
use peer_core.Base.{
  Bool, or_default, ◌&&◌, if◌then◌else◌, [], ◌∷◌, none, some, true, false, refl, zero, suc, inl,
  inr, Option, find, ap, List, String, ℕ, ◌+◌, Map, insert, lookup, str_append, length, codes, map,
}
use peer_core.Action.{ok, err, Result}
use peer_core.Base.Int.{pos, negsuc}

pub data Author : Type 0 where
  system user assistant : Author

pub record Message : Type 0 where
  pub role : Author
  pub content : String

pub record CompletionRequest : Type 0 where
  pub messages : List Message
  pub model : Option String
  pub max_tokens : Option ℕ

pub record Usage : Type 0 where
  pub input_tokens : ℕ
  pub output_tokens : ℕ

pub record CompletionResponse : Type 0 where
  pub text : String
  pub model : String
  pub usage : Option Usage

-- `InferenceProvider`; a vector is a list of floats, whose type is a parameter.
pub record InferenceProvider : Type 1 where
  pub State : Type 0
  pub Float : Type 0
  pub complete : CompletionRequest → State → Result CompletionResponse × State
  pub embed : String → State → Result (List Float) × State

-- The gateway: the cache, keyed by a digest of the request, and the count of calls.
pub record Gateway (S : Type 0) : Type 0 where
  pub cache : Map CompletionResponse
  pub completion_calls : ℕ
  pub provider : S

abbrev pub fresh_gateway : {S : Type 0} → S → Gateway S
fresh_gateway s = record { cache = []; completion_calls = 0; provider = s }

-- The content of the last message of a user.
abbrev pub last_user : List Message → Option String
last_user [] = none
last_user (m ∷ ms) = elim (last_user ms) [
  | some text ↦ some text
  | none ↦ elim m.role [ system ↦ none | user ↦ some m.content | assistant ↦ none ]
]

abbrev size : String → ℕ
size s = length (codes s)

abbrev sizes : List Message → ℕ
sizes [] = 0
sizes (m ∷ ms) = size m.content + sizes ms

-- `EchoProvider.complete`, on texts of the basic plane, whose length is their number of codes.
unfoldable pub echo : CompletionRequest → CompletionResponse
echo req =
    let text = str_append "echo: " (or_default (last_user req.messages) "") in
    record {
      text = text;
      model = or_default req.model "echo";
      usage = some (record { input_tokens = sizes req.messages; output_tokens = size text });
    }

module _ (p : InferenceProvider) (digest : CompletionRequest → String) where
  abbrev remember :
      Bool
      → String
      → Result CompletionResponse × p.State
      → Gateway p.State
      → Result CompletionResponse × Gateway p.State
  remember use_cache key (err e, s) g = (err e, record g { provider = s })
  remember use_cache key (ok res, s) g = (
    ok res,
    record g { provider = s; cache = if use_cache then insert key res g.cache else g.cache },
  )

  -- The call of the provider, and what is kept of its answer.
  abbrev ask :
      Bool
      → String
      → CompletionRequest
      → Gateway p.State
      → Result CompletionResponse × Gateway p.State
  ask use_cache key req g =
      let counted = record g { completion_calls = g.completion_calls + 1 } in
      remember use_cache key (p.complete req g.provider) counted

  -- `InferenceGateway.complete`; a missing `cache` option is true. `digest` is the SHA-256 of the JSON
  -- text of a request.
  unfoldable pub complete :
      CompletionRequest
      → Option Bool
      → Gateway p.State
      → Result CompletionResponse × Gateway p.State
  complete req cache g =
      let use_cache = or_default cache true in
      let key = digest req in
      let called = ask use_cache key req g in
      if use_cache
      then elim (lookup key g.cache) [ none ↦ called | some hit ↦ (ok hit, g) ]
      else called

  -- `InferenceGateway.embed`
  unfoldable pub embed : String → Gateway p.State → Result (List p.Float) × Gateway p.State
  embed text g = let (r, s) = p.embed text g.provider in (r, record g { provider = s })
