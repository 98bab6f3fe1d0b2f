-- ===== src/Inference/Tests.antt =====
-- A provider that counts its calls.
use peer_core.Inference.Cached.{complete-run, run}
use peer_core.Inference.{
  fresh_gateway, last_user, user, Gateway, CompletionRequest, complete, echo, InferenceProvider,
}
use peer_core.Base.{◌+◌, ℕ, ◌≡◌, or_default, String, [], ◌∷◌, none, some, false, refl}
use peer_core.Action.{ok}

abbrev provider : InferenceProvider
provider = record {
  State = ℕ;
  Float = ℕ;
  complete = λ req s. (ok (echo req), s + 1);
  embed = λ text s. (ok [], s);
}

abbrev digest : CompletionRequest → String
digest req = or_default (last_user req.messages) ""

abbrev asks : String → CompletionRequest
asks text = record {
  messages = record { role = user; content = text } ∷ [];
  model = none;
  max_tokens = none;
}

abbrev begin : Gateway ℕ
begin = fresh_gateway 0

hello_answered : (complete provider digest (asks "hi") none begin).0 ≡ ok (echo (asks "hi"))
unfolding complete
hello_answered = refl

complete-run_example :
    let g' =
      run provider digest
        ((asks "other", none) ∷ (asks "hi", some false) ∷ [])
        (complete provider digest (asks "hi") none begin).1 in
    complete provider digest (asks "hi") none g' ≡ (ok (echo (asks "hi")), g')
complete-run_example =
    complete-run provider digest (asks "hi") ((asks "other", none) ∷ (asks "hi", some false) ∷ [])
      begin (echo (asks "hi")) hello_answered

echoed : (echo (asks "hi")).text ≡ "echo: hi"
unfolding echo
echoed = refl
