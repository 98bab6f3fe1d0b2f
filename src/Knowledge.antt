-- ===== src/Knowledge.antt =====
-- src/modules/agent: kb.service.ts and conversation.service.ts, over the gateway of Inference, and
-- src/vertical/restaurants/menu-sync.service.ts, which fills the knowledge base. The arithmetic of
-- JavaScript on floats is a parameter.
pub mod Ranked
pub mod Answered
mod Tests
use peer_core.Base.{
  ◌&&◌, if◌then◌else◌, [], ◌∷◌, none, some, true, false, refl, zero, suc, inl, inr, Option, find,
  ap, not, ◌||◌, or_default, ◌++◌, ◌==◌, any, str_append, is_truthy, keep, map, length, List,
  String, ℕ, Bool, ◌+◌,
}
use peer_core.Action.{ok, err, ◌>>=◌, ◌>>◌, statement, query, call, pure, Action, Result}
use peer_core.Base.Int.{pos, negsuc}
use peer_core.Base.Sorting.{sort_by, take}
use peer_core.Tenancy.Rows.{select, Scoped}
use peer_core.Tenancy.{with_tenant, Uuid}
use peer_core.Orders.Tables.{CatalogItem, Tables, CatalogItem-scoped}
use peer_core.Errors.{database, unique_violation}
use peer_core.Inference.{
  InferenceProvider, Gateway, CompletionRequest, Message, embed, complete, system, user,
}

-- `source` and the time of a document are left out.
pub record KbDocument (V : Type 0) : Type 0 where
  pub id : Uuid
  pub tenant_id : Uuid
  pub title : String
  pub content : String
  pub embedding : V

-- The tables of the catalog, and the knowledge base.
pub record Lore (V : Type 0) : Type 0 where
  pub base : Tables
  pub documents : List (KbDocument V)

instance abbrev pub KbDocument-scoped : {V : Type 0} → Scoped (KbDocument V)
KbDocument-scoped = record { tenant_of = λ r. r.tenant_id }

-- JavaScript's floats: `0`, the operators, `Math.sqrt`, `===` and `>`.
pub record Floats (F : Type 0) : Type 0 where
  pub zero : F
  pub add : F → F → F
  pub sub : F → F → F
  pub mul : F → F → F
  pub div : F → F → F
  pub sqrt : F → F
  pub equal : F → F → Bool
  pub greater : F → F → Bool

-- `dot`, `na` and `nb` of `cosine`.
pub record Sums (F : Type 0) : Type 0 where
  pub dot : F
  pub na : F
  pub nb : F

module _ {F : Type 0} (fl : Floats F) where
  -- The loop, over vectors of one length.
  abbrev sums : List F → List F → Sums F → Sums F
  sums [] ys s = s
  sums (x ∷ xs) [] s = s
  sums (x ∷ xs) (y ∷ ys) s = sums xs ys (record {
    dot = fl.add s.dot (fl.mul x y);
    na = fl.add s.na (fl.mul x x);
    nb = fl.add s.nb (fl.mul y y);
  })

  abbrev quotient : Sums F → F
  quotient s =
      if fl.equal s.na fl.zero || fl.equal s.nb fl.zero
      then fl.zero
      else fl.div s.dot (fl.mul (fl.sqrt s.na) (fl.sqrt s.nb))

  unfoldable pub cosine : List F → List F → F
  cosine a b =
      if (length a == 0) || not (length a == length b)
      then fl.zero
      else quotient (sums a b (record { dot = fl.zero; na = fl.zero; nb = fl.zero }))

  -- What `sort` makes of the comparison `y - x`: unless it is above 0, `x` may stand before `y`.
  abbrev pub at_least : F → F → Bool
  at_least x y = not (fl.greater (fl.sub y x) fl.zero)

pub record Retrieved (S : Type 0) : Type 0 where
  pub id : Uuid
  pub title : String
  pub content : String
  pub score : S

pub record AgentReply : Type 0 where
  pub text : String
  pub sources : List Uuid

pub record NewDocument : Type 0 where
  pub title : String
  pub content : String

abbrev pub join : String → List String → String
join sep [] = ""
join sep (x ∷ []) = x
join sep (x ∷ y ∷ xs) = str_append x (str_append sep (join sep (y ∷ xs)))

abbrev pub or_text : String → String → String
or_text a b = if is_truthy a then a else b

abbrev allergen_text : Option (List String) → String
allergen_text none = ""
allergen_text (some []) = ""
allergen_text (some (a ∷ rest)) = str_append "Allergens: " (str_append (join ", " (a ∷ rest)) ".")

-- The document of an item of the menu.
abbrev pub menu_document : CatalogItem → NewDocument
menu_document item =
    let parts =
      keep is_truthy (or_default item.description "" ∷ allergen_text item.allergens ∷ []) in
    record { title = item.name; content = or_text (join " " parts) item.name }

abbrev pub instruction : String
instruction =
    "Answer only from the provided knowledge. If it is not there, say you do not know. Never invent facts, prices, or availability.\n\nKnowledge:\n"

-- The primary key is checked.
abbrev pub insert_document : {V : Type 0} → KbDocument V → Lore V → Result Uuid × Lore V
insert_document row db =
    if any (λ d. d.id == row.id) db.documents
    then (err (database unique_violation), db)
    else (ok row.id, record db { documents = db.documents ++ row ∷ [] })

module _ (p : InferenceProvider) (digest : CompletionRequest → String) where
  abbrev pub LoreAction : Type 0 → Type 0
  LoreAction A = Action (Lore (List p.Float)) (Gateway p.State) A

  abbrev document_of : Uuid → Uuid → NewDocument → (List p.Float) → KbDocument (List p.Float)
  document_of id t doc v = record {
    id = id;
    tenant_id = t;
    title = doc.title;
    content = doc.content;
    embedding = v;
  }

  -- `KbService.addDocument`; `id` is what Postgres draws.
  unfoldable pub add_document : String → Uuid → NewDocument → LoreAction Uuid
  unfolding embed
  add_document tenant_id id doc = call (embed p digest doc.content) >>= λ v.
      with_tenant tenant_id (λ t. statement (insert_document (document_of id t doc v)))

  -- The loop of `syncAll`; `ids n` is what Postgres draws for the n-th document.
  abbrev index_all : String → (ℕ → Uuid) → ℕ → List CatalogItem → LoreAction (Unit {0})
  index_all tenant_id ids n [] = pure tt
  index_all tenant_id ids n (item ∷ items) =
      add_document tenant_id (ids n) (menu_document item) >> index_all tenant_id ids (n + 1) items

  unfoldable pub sync_all : String → (ℕ → Uuid) → LoreAction ℕ
  unfolding add_document
  sync_all tenant_id ids = do
    items ← with_tenant tenant_id (λ t. query (λ db. select t (λ r. true) db.base.catalog_items))
    index_all tenant_id ids 0 items
    pure (length items)

module _ (p : InferenceProvider) (digest : CompletionRequest → String) (fl : Floats p.Float) where
  abbrev pub scored : (List p.Float) → KbDocument (List p.Float) → Retrieved p.Float
  scored q d = record {
    id = d.id;
    title = d.title;
    content = d.content;
    score = cosine fl q d.embedding;
  }

  abbrev pub above : Retrieved p.Float → Retrieved p.Float → Bool
  above a b = at_least fl a.score b.score

  abbrev pub ranked : (List p.Float) → List (KbDocument (List p.Float)) → List (Retrieved p.Float)
  ranked q docs = sort_by above (map (scored q) docs)

  -- `KbService.search`
  unfoldable pub search_kb : String → String → ℕ → LoreAction p digest (List (Retrieved p.Float))
  unfolding embed
  search_kb tenant_id text k = do
    q ← call (embed p digest text)
    docs ← with_tenant tenant_id (λ t. query (λ db. select t (λ d. true) db.documents))
    pure (take k (ranked q docs))

  abbrev line : Retrieved p.Float → String
  line h = str_append "- " (str_append h.title (str_append ": " h.content))

  abbrev pub prompt : String → List (Retrieved p.Float) → CompletionRequest
  prompt message hits = record {
    messages =
        record {
          role = system;
          content = str_append instruction (or_text (join "\n" (map line hits)) "(none)");
        }
        ∷ record { role = user; content = message }
        ∷ [];
    model = none;
    max_tokens = none;
  }

  -- `ConversationService.reply`, and `DinerAgentService.ask`.
  unfoldable pub reply : String → String → ℕ → LoreAction p digest AgentReply
  unfolding search_kb complete
  reply tenant_id message k = do
    hits ← search_kb tenant_id message k
    res ← call (complete p digest (prompt message hits) none)
    pure (record { text = res.text; sources = map (λ h. h.id) hits })
