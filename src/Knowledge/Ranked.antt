-- ===== src/Knowledge/Ranked.antt =====
-- What a search of the knowledge base finds (src/modules/agent/kb.service.ts).
use peer_core.Base.{true, Bool, List, String}
use peer_core.Tenancy.Rows.{select}
use peer_core.Inference.{CompletionRequest, InferenceProvider}
use peer_core.Tenancy.{Uuid}
use peer_core.Knowledge.{Floats, KbDocument, Lore, KbDocument-scoped}

module _ (p : InferenceProvider) (digest : CompletionRequest → String) (fl : Floats p.Float) where
  abbrev own : Uuid → Lore (List p.Float) → List (KbDocument (List p.Float))
  own t db = select t (λ d. true) db.documents

  -- Every float but NaN equals itself.
  abbrev pub is_number : p.Float → Bool
  is_number x = fl.equal x x
