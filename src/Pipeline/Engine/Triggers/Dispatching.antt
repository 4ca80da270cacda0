-- ===== src/Pipeline/Engine/Triggers/Dispatching.antt =====
-- The loops over units and triggers in `dispatchTriggers` of src/pipeline/engine.ts.
use mathlib.Core.Path.{subst}
use decompi.Base.{
  ◌+◌, ◌∙◌, ltb, str_dec, ◌||◌, ℕ, ◌≡◌, refl, ◌≤◌, ◌<◌, true, false, List, [], ◌∷◌, some, String,
  ◌===◌, All, arith, Bool-cases, inl, inr,
}
use decompi.Pipeline.Engine.{Item, has_id}
use decompi.Pipeline.Engine.Foreach.{returns, Running, ScopeResult, Failure}
use decompi.Pipeline.Engine.Foreach.Endings.{Gives, then_do-Gives, Gives-weaken}
use decompi.Pipeline.Engine.Registry.{Trigger, Pipeline, Engine}
use decompi.Pipeline.Engine.Triggers.{
  unit_complete, units_of, all_items, trigger_key, Session, triggered, non_accepted, run_targets,
  passed_over, run_units, dispatch_to,
}
use decompi.Pipeline.Engine.Triggers.Fates.{
  one, lines, targets, left_over, left_over-lt, same_text, head_fired, IsWithin, Starts, Kept, Fate,
  Fate-trans, Fate-fired, Fate-keeps, told-Fate, fired_cons-Fate,
}
use decompi.Pipeline.Engine.Triggers.Units.{IsKeyed, AreKeyed, units_of-AreKeyed}

abbrev pub Any : Failure → Type 0
Any e = Unit

module _ {W Turn : Type 0} (e : Engine W Turn) (keys : List String) where
  -- A run of a pipeline: it starts itself, and the runs of the trigger lines.
  abbrev pub Ran : ℕ → String → Session W → Session W → Type 0
  Ran n id s s' = IsWithin keys n s' × Starts (λ t. one t id) s s' × ((k : String) → Fate e k s s')

  -- The triggers of a unit were run, and the other keys have each their fate.
  pub record Targeted (n : ℕ) (k : String) (ts : List Trigger) (s s' : Session W) : Type 0 where
    pub within : IsWithin keys n s'
    pub balance : Starts (λ t. 0) s s'
    pub still : has_id k s'.fired_triggers ≡ true
    pub all : (t : String) → lines k t s'.log ≡ lines k t s.log + targets t ts
    pub others : (j : String) → (k === j) ≡ false → Fate e j s s'

  -- The units that are complete have fired.
  abbrev pub Covered : String → ScopeResult → List String → Session W → Type 0
  Covered id res units s =
      All
        (λ u.
          (ltb 0 (non_accepted u res (all_items res)) || has_id (trigger_key id u) s.fired_triggers)
          ≡ true)
        units

  pub record Dispatched (n : ℕ) (id : String) (res : ScopeResult) (units : List String)
      (s s' : Session W) : Type 0 where
    pub within : IsWithin keys n s'
    pub balance : Starts (λ t. 0) s s'
    pub fates : (k : String) → Fate e k s s'
    pub covered : Covered id res units s'

  Targeted-cons :
      (id u : String) (t : Trigger) (ts : List Trigger) (n : ℕ) (s s' s'' : Session W)
      → Starts (λ x. one x t.to) (record s { log = triggered id u t.to ∷ s.log }) s'
      → Kept (trigger_key id u) (record s { log = triggered id u t.to ∷ s.log }) s'
      → ((k : String) → Fate e k (record s { log = triggered id u t.to ∷ s.log }) s')
      → Targeted n (trigger_key id u) ts s' s''
      → Targeted n (trigger_key id u) (t ∷ ts) s s''
  unfolding str_dec
  Targeted-cons id u t ts n s s' s'' balance kept fates q =
      let k = trigger_key id u in
      let same : (k === k) ≡ true = same_text k in
      record {
        within = q.within;
        balance = λ x. omega (arith, balance x, q.balance x);
        still = q.still;
        all = λ x.
            let now : lines k x s'.log ≡ one x t.to + lines k x s.log = rw same at (kept.1 x) in
            omega (arith, now, q.all x);
        others = λ j apart.
            Fate-trans e j s s' s'' (told-Fate e id u t.to j s s' apart (fates j))
              (q.others j apart);
      }

  IsWithin-weaken : (m n : ℕ) → m ≤ n → (s : Session W) → IsWithin keys m s → IsWithin keys n s
  IsWithin-weaken m n le s (h, d) = (omega (arith, h, le), d)

  passed-Dispatched :
      (id : String) (res : ScopeResult) (u : String) (units : List String) (n : ℕ)
      (s s' : Session W)
      → (ltb 0 (non_accepted u res (all_items res)) || has_id (trigger_key id u) s.fired_triggers)
        ≡ true
      → Dispatched n id res units s s'
      → Dispatched n id res (u ∷ units) s s'
  passed-Dispatched id res u units n s s' past d = record {
    within = d.within;
    balance = d.balance;
    fates = d.fates;
    covered = (
      elim (Bool-cases (has_id (trigger_key id u) s.fired_triggers)) [
        | inl f ↦
            ground (arith, Fate-keeps e (trigger_key id u) s s' (d.fates (trigger_key id u)) f)
        | inr f ↦ ground (arith, past, f)
      ],
      d.covered,
    );
  }

  -- The triggers of a unit were run, and what comes behind it.
  fired-Dispatched :
      (id : String) (p : Pipeline W Turn) (u : String) (units : List String) (res : ScopeResult)
      (n m : ℕ) (s s' s'' : Session W)
      → e.pipelines id ≡ some p
      → has_id (trigger_key p.id u) s.fired_triggers ≡ false
      → Targeted m
          (trigger_key p.id u)
          (unit_complete p.triggers)
          (record s { fired_triggers = trigger_key p.id u ∷ s.fired_triggers })
          s'
      → Dispatched n p.id res units s' s''
      → Dispatched n p.id res (u ∷ units) s s''
  fired-Dispatched id p u units res n m s s' s'' there unfired q d =
      let k = trigger_key p.id u in
      let kept = Fate-fired e k s' s'' (d.fates k) q.still in
      record {
        within = d.within;
        balance = λ t. omega (arith, q.balance t, d.balance t);
        fates = λ j. elim (str_dec k j) [
          | yes same ↦
              subst (λ i. Fate e i s s'') same
                (inr (record {
                  before = unfired;
                  after = kept.0 ∙ q.still;
                  id = id;
                  pipeline = p;
                  unit = u;
                  registered = there;
                  key = refl;
                  once = λ t. omega (arith, kept.1 t, q.all t);
                }))
          | no apart ↦
              let differs : (k === j) ≡ false = ground (arith, apart) in
              Fate-trans e j s s' s'' (fired_cons-Fate e k j s s' differs (q.others j differs))
                (d.fates j)
        ];
        covered = (ground (arith, kept.0, q.still), d.covered);
      }

  -- The complete units of a run have fired, where its pipeline has triggers for them.
  abbrev pub Covers : List Trigger → String → ScopeResult → Session W → Type 0
  Covers [] id res s = Unit
  Covers (t ∷ ts) id res s = Covered id res (units_of (all_items res) []) s

  pub record Settled (n : ℕ) (ts : List Trigger) (id : String) (res : ScopeResult)
      (s s' : Session W) : Type 0 where
    pub within : IsWithin keys n s'
    pub balance : Starts (λ t. 0) s s'
    pub fates : (k : String) → Fate e k s s'
    pub covered : Covers ts id res s'

  module _ (run : String → Session W → Running (Session W × ScopeResult)) (fuel : ℕ)
      (ends : (id : String) (n : ℕ) (s : Session W)
        → n < fuel
        → IsWithin keys n s
        → Gives Any (λ (s', _). Ran n id s s') (run id s)) where
    run_targets-Targeted :
        (id u : String) (ts : List Trigger) (n : ℕ) (s : Session W)
        → n < fuel
        → IsWithin keys n s
        → has_id (trigger_key id u) s.fired_triggers ≡ true
        → Gives Any (Targeted n (trigger_key id u) ts s) (run_targets run id u ts s)
    unfolding run_targets
    run_targets-Targeted id u [] n s less h f = (
      returns s,
      refl,
      record {
        within = h;
        balance = λ t. omega arith;
        still = f;
        all = λ t. omega arith;
        others = λ j d. inl (refl, λ t. refl);
      },
    )
    run_targets-Targeted id u (t ∷ ts) n s less h f =
        let told : Session W = record s { log = triggered id u t.to ∷ s.log } in
        then_do-Gives Any (λ (s', _). Ran n t.to told s') (Targeted n (trigger_key id u) (t ∷ ts) s)
          (run t.to told) _ (ends t.to n told less h)
          (λ (s', res) (within, balance, fates).
            let kept = Fate-fired e (trigger_key id u) told s' (fates (trigger_key id u)) f in
            Gives-weaken Any (Targeted n (trigger_key id u) ts s')
              (Targeted n (trigger_key id u) (t ∷ ts) s) (run_targets run id u ts s')
              (λ s'' q. Targeted-cons id u t ts n s s' s'' balance kept fates q)
              (run_targets-Targeted id u ts n s' less within (kept.0 ∙ f)))

    run_units-Dispatched :
        (id : String) (p : Pipeline W Turn) (res : ScopeResult) (units : List String) (n : ℕ)
        (s : Session W)
        → e.pipelines id ≡ some p
        → n ≤ fuel
        → AreKeyed keys p.id units
        → IsWithin keys n s
        → Gives Any
            (Dispatched n p.id res units s)
            (run_units run p.id (unit_complete p.triggers) res units s)
    unfolding run_units
    run_units-Dispatched id p res [] n s there le all h = (
      returns s,
      refl,
      record {
        within = h;
        balance = λ t. omega arith;
        fates = λ k. inl (refl, λ t. refl);
        covered = tt;
      },
    )
    run_units-Dispatched id p res (u ∷ units) n s there le all h =
        let k = trigger_key p.id u in
        elim (Bool-cases (passed_over run p.id res u s)) [
          | inl past ↦
              rw (run_units, past)
                (Gives-weaken Any (Dispatched n p.id res units s)
                  (Dispatched n p.id res (u ∷ units) s)
                  (run_units run p.id (unit_complete p.triggers) res units s)
                  (λ s' d. passed-Dispatched p.id res u units n s s' past d)
                  (run_units-Dispatched id p res units n s there le all.1 h))
          | inr live ↦
              let unfired : has_id k s.fired_triggers ≡ false = ground (arith, live) in
              let less = left_over-lt keys k s.fired_triggers all.0 unfired in
              let fired : Session W = record s { fired_triggers = k ∷ s.fired_triggers } in
              let ts = unit_complete p.triggers in
              rw (run_units, live)
                (then_do-Gives Any (Targeted (left_over keys fired.fired_triggers) k ts fired)
                  (Dispatched n p.id res (u ∷ units) s) (run_targets run p.id u ts fired) _
                  (run_targets-Targeted p.id u ts (left_over keys fired.fired_triggers) fired
                    (omega (arith, less, h.0, le)) (omega arith, (unfired, h.1))
                    (head_fired k s.fired_triggers))
                  (λ s' q.
                    Gives-weaken Any (Dispatched n p.id res units s')
                      (Dispatched n p.id res (u ∷ units) s) (run_units run p.id ts res units s')
                      (λ s'' d. fired-Dispatched id p u units res n _ s s' s'' there unfired q d)
                      (run_units-Dispatched id p res units n s' there le all.1
                        (IsWithin-weaken _ n (omega (arith, less, h.0)) s' q.within))))
        ]

    pub dispatch_to-Dispatched :
        (id : String) (p : Pipeline W Turn) (res : ScopeResult) (n : ℕ) (s : Session W)
        → e.pipelines id ≡ some p
        → n ≤ fuel
        → All (λ (item : Item). IsKeyed keys p.id item.unit_id) (all_items res)
        → IsWithin keys n s
        → Gives Any
            (Settled n (unit_complete p.triggers) p.id res s)
            (dispatch_to run p.id (unit_complete p.triggers) res s)
    unfolding dispatch_to
    dispatch_to-Dispatched id p res n s there le all h = go (unit_complete p.triggers) (
        run_units-Dispatched id p res (units_of (all_items res) []) n s there le
          (units_of-AreKeyed keys p.id (all_items res) [] all tt) h)
      where
        go :
            (ts : List Trigger)
            → Gives Any
                (Dispatched n p.id res (units_of (all_items res) []) s)
                (run_units run p.id ts res (units_of (all_items res) []) s)
            → Gives Any (Settled n ts p.id res s) (dispatch_to run p.id ts res s)
        go [] d = (
          returns s,
          refl,
          record {
            within = h;
            balance = λ t. omega arith;
            fates = λ k. inl (refl, λ t. refl);
            covered = tt;
          },
        )
        go (t ∷ ts) d =
            Gives-weaken Any (Dispatched n p.id res (units_of (all_items res) []) s)
              (Settled n (t ∷ ts) p.id res s)
              (run_units run p.id (t ∷ ts) res (units_of (all_items res) []) s)
              (λ s' q. record {
                within = q.within;
                balance = q.balance;
                fates = q.fates;
                covered = q.covered;
              })
              d
