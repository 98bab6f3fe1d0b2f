-- ===== src/Knowledge/Tests.antt =====
-- A provider whose vectors are numbers, and a knowledge base of two documents.
use peer_core.Base.{
  if◌then◌else◌, [], ◌∷◌, some, true, refl, zero, suc, ◌*◌, ◌-◌, ◌/◌, ltb, ◌==◌, codes, length, ◌+◌,
  String, leb, List, ◌≡◌, ℕ,
}
use peer_core.Action.{ok, World}
use peer_core.Knowledge.Answered.{reply-isolated}
use peer_core.Tenancy.Rows.{select}
use peer_core.Inference.{fresh_gateway, Gateway, echo, embed, CompletionRequest, InferenceProvider}
use peer_core.Tenancy.{Uuid, uuid_of, with_tenant}
use peer_core.Orders.Samples.{tables, tenant}
use peer_core.Knowledge.{
  Floats, cosine, KbDocument, Lore, Retrieved, add_document, search_kb, sync_all, reply,
  KbDocument-scoped,
}
use peer_core.Base.Sorting.{sort_by}

abbrev provider : InferenceProvider
provider = record {
  State = ℕ;
  Float = ℕ;
  complete = λ req s. (ok (echo req), s + 1);
  embed = λ text s. (ok (length (codes text) ∷ 0 ∷ []), s);
}

abbrev digest : CompletionRequest → String
digest req = "digest"

-- The largest number up to `k` whose square is at most `n`.
abbrev root : ℕ → ℕ → ℕ
root n zero = 0
root n (suc k) = if leb (suc k * suc k) n then suc k else root n k

-- Natural numbers for floats, with quotients in hundredths.
abbrev naturals : Floats ℕ
naturals = record {
  zero = 0;
  add = λ a b. a + b;
  sub = λ a b. a - b;
  mul = λ a b. a * b;
  div = λ a b. a * 100 / b;
  sqrt = λ n. root n n;
  equal = λ a b. a == b;
  greater = λ a b. ltb b a;
}

abbrev doc : Uuid → Uuid → List ℕ → KbDocument (List ℕ)
doc id t v = record { id = id; tenant_id = t; title = "dish"; content = "rice"; embedding = v }

abbrev start : World (Lore (List ℕ)) (Gateway ℕ)
start = record {
  db = record {
    base = tables;
    documents = doc 1 7 (4 ∷ 3 ∷ []) ∷ doc 2 8 (4 ∷ 0 ∷ []) ∷ doc 3 7 (9 ∷ 0 ∷ []) ∷ [];
  };
  outside = fresh_gateway 0;
}

tenant_read : uuid_of tenant ≡ some 7
unfolding uuid_of
tenant_read = refl

abbrev hit : Uuid → ℕ → Retrieved ℕ
hit id score = record { id = id; title = "dish"; content = "rice"; score = score }

searched :
    search_kb provider digest naturals tenant "rice" 2 start
    ≡ (ok (hit 3 100 ∷ hit 1 80 ∷ []), start)
unfolding search_kb embed with_tenant uuid_of select sort_by cosine
searched = refl

-- Without the document of the other tenant.
abbrev alone : World (Lore (List ℕ)) (Gateway ℕ)
alone = record start {
  db = record { base = tables; documents = doc 1 7 (4 ∷ 3 ∷ []) ∷ doc 3 7 (9 ∷ 0 ∷ []) ∷ [] };
}

same_own : select 7 (λ d. true) start.db.documents ≡ select 7 (λ d. true) alone.db.documents
unfolding select
same_own = refl

reply-isolated_example :
    let (answer, w') = reply provider digest naturals tenant "rice" 1 start in
    (answer ≡ (reply provider digest naturals tenant "rice" 1 alone).0)
    × (w'.outside ≡ (reply provider digest naturals tenant "rice" 1 alone).1.outside)
    × (w'.db ≡ start.db)
reply-isolated_example =
    reply-isolated provider digest naturals tenant 7 "rice" 1 start alone tenant_read same_own refl

synced : (sync_all provider digest tenant (λ n. n + 10) start).0 ≡ ok 1
unfolding sync_all add_document embed with_tenant uuid_of select
synced = refl
