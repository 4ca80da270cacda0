-- ===== src/Pipeline/Engine/Foreach/Endings.antt =====
-- How the code of src/pipeline/engine.ts that runs scopes may end.
use decompi.Base.{◌∙◌, ◌+◌, ◌≡◌, ap, List, some, String}
use decompi.Pipeline.Engine.{Item}
use decompi.Pipeline.Engine.AgentLoop.Play.{times}
use decompi.Pipeline.Engine.Foreach.{
  then_do, Running, Outcome, returns, throws, Failure, RunState, ScopeResult,
}

-- Code that ends: with a result of which a predicate holds, or with a failure that is to blame on
-- something.
abbrev pub Settles : {A : Type 0} → (Failure → Type 0) → (A → Type 0) → Outcome A → Type 0
Settles Blame P (returns x) = P x
Settles Blame P (throws e) = Blame e

abbrev pub Gives : {A : Type 0} → (Failure → Type 0) → (A → Type 0) → Running A → Type 0
Gives {A} Blame P o = (out : Outcome A) × (o ≡ some out) × Settles Blame P out

pub then_do-Gives :
    {A B : Type 0} (Blame : Failure → Type 0) (P : A → Type 0) (Q : B → Type 0) (o : Running A)
    (f : A → Running B)
    → Gives Blame P o
    → ((x : A) → P x → Gives Blame Q (f x))
    → Gives Blame Q (then_do o f)
unfolding then_do
then_do-Gives Blame P Q o f (throws e, there, h) k = (throws e, ap (λ q. then_do q f) there, h)
then_do-Gives Blame P Q o f (returns x, there, h) k =
    let (out, ran, all) = k x h in (out, ap (λ q. then_do q f) there ∙ ran, all)

pub Gives-weaken :
    {A : Type 0} (Blame : Failure → Type 0) (P Q : A → Type 0) (o : Running A)
    → ((x : A) → P x → Q x)
    → Gives Blame P o
    → Gives Blame Q o
Gives-weaken Blame P Q o f (throws e, there, h) = (throws e, there, h)
Gives-weaken Blame P Q o f (returns x, there, h) = (returns x, there, f x h)

-- A scope that keeps its items.
abbrev pub Partitions : {W : Type 0} → List Item → RunState W × ScopeResult → Type 0
Partitions items (state, res) =
    (k : String) → times k res.accepted + times k res.rejected + times k res.skipped ≡ times k items
