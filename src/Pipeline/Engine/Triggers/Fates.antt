-- ===== src/Pipeline/Engine/Triggers/Fates.antt =====
-- What becomes of the triggers of src/pipeline/engine.ts between two moments of a run.
use decompi.Base.{
  ◌⊎◌, ◌+◌, ◌∙◌, sym, str_dec, ℕ, suc, ◌≡◌, refl, ◌≤◌, ◌<◌, true, false, List, [], ◌∷◌, some,
  String, ◌===◌, if◌then◌else◌, arith, Bool-cases, inl, inr,
}
use decompi.Pipeline.Engine.{has_id}
use decompi.Pipeline.Engine.Registry.{Trigger, Pipeline, Engine}
use decompi.Pipeline.Engine.Triggers.{
  unit_complete, trigger_key, Session, LogLine, run_start, triggered,
}

-- How many of some keys have not fired.
unfoldable pub left_over : List String → List String → ℕ
unfolding has_id
left_over [] fired = 0
left_over (k ∷ keys) fired =
    let rest = left_over keys fired in if has_id k fired then rest else suc rest

abbrev pub IsDistinct : List String → Type 0
IsDistinct [] = Unit
IsDistinct (k ∷ ks) = (has_id k ks ≡ false) × IsDistinct ks

left_over-le :
    (keys : List String) (k : String) (fired : List String)
    → left_over keys (k ∷ fired) ≤ left_over keys fired
unfolding left_over has_id
left_over-le [] k fired = omega arith
left_over-le (x ∷ keys) k fired = ground (arith, left_over-le keys k fired)

pub left_over-lt :
    (keys : List String) (k : String) (fired : List String)
    → has_id k keys ≡ true
    → has_id k fired ≡ false
    → left_over keys (k ∷ fired) < left_over keys fired
unfolding left_over has_id
left_over-lt [] k fired h n = cc
left_over-lt (x ∷ keys) k fired h n = elim (Bool-cases (x === k)) [
  | inl e ↦ ground (arith, e, n, left_over-le keys k fired)
  | inr e ↦ ground (arith, e, left_over-lt keys k fired)
]

pub same_text : (k : String) → (k === k) ≡ true
same_text k = elim (str_dec k k) [ yes e ↦ ground arith | no n ↦ absurd (n refl) ]

pub head_fired : (k : String) (ks : List String) → has_id k (k ∷ ks) ≡ true
unfolding has_id
head_fired k ks = ground (arith, same_text k)

-- How often a log has runs of a pipeline start, triggers that lead to it, and such triggers of a key.
abbrev pub one : String → String → ℕ
one t id = if id === t then 1 else 0

abbrev pub starts : String → List LogLine → ℕ
starts t [] = 0
starts t (run_start id ∷ log) = one t id + starts t log
starts t (triggered id u to ∷ log) = starts t log

abbrev pub leads : String → List LogLine → ℕ
leads t [] = 0
leads t (run_start id ∷ log) = leads t log
leads t (triggered id u to ∷ log) = one t to + leads t log

abbrev pub lines : String → String → List LogLine → ℕ
lines k t [] = 0
lines k t (run_start id ∷ log) = lines k t log
lines k t (triggered id u to ∷ log) =
    (if trigger_key id u === k then one t to else 0) + lines k t log

abbrev pub targets : String → List Trigger → ℕ
targets t [] = 0
targets t (trigger ∷ ts) = one t trigger.to + targets t ts

module _ {W : Type 0} (keys : List String) where
  -- Triggers that fired once each, of which at most so many have not.
  abbrev pub IsWithin : ℕ → Session W → Type 0
  IsWithin n s = (left_over keys s.fired_triggers ≤ n) × IsDistinct s.fired_triggers

module _ {W : Type 0} where
  -- Between two moments a run starts for each trigger line, and these runs besides.
  abbrev pub Starts : (String → ℕ) → Session W → Session W → Type 0
  Starts extra s s' =
      (t : String) → starts t s'.log + leads t s.log ≡ starts t s.log + leads t s'.log + extra t

  -- Between two moments a key stays as it was, with no line of it.
  abbrev pub Kept : String → Session W → Session W → Type 0
  Kept k s s' =
      (has_id k s'.fired_triggers ≡ has_id k s.fired_triggers)
      × ((t : String) → lines k t s'.log ≡ lines k t s.log)

module _ {W Turn : Type 0} (e : Engine W Turn) where
  -- Between two moments a key of a registered pipeline fires, with one line for each of its triggers.
  pub record Fired (k : String) (s s' : Session W) : Type 0 where
    pub before : has_id k s.fired_triggers ≡ false
    pub after : has_id k s'.fired_triggers ≡ true
    pub id : String
    pub pipeline : Pipeline W Turn
    pub unit : String
    pub registered : e.pipelines id ≡ some pipeline
    pub key : trigger_key pipeline.id unit ≡ k
    pub once :
        (t : String)
        → lines k t s'.log ≡ lines k t s.log + targets t (unit_complete pipeline.triggers)

  abbrev pub Fate : String → Session W → Session W → Type 0
  Fate k s s' = Kept k s s' ⊎ Fired k s s'

  pub Fate-trans : (k : String) (s s' s'' : Session W) → Fate k s s' → Fate k s' s'' → Fate k s s''
  Fate-trans k s s' s'' (inl a) (inl b) = inl (b.0 ∙ a.0, λ t. b.1 t ∙ a.1 t)
  Fate-trans k s s' s'' (inl a) (inr b) = inr (record {
    before = sym a.0 ∙ b.before;
    after = b.after;
    id = b.id;
    pipeline = b.pipeline;
    unit = b.unit;
    registered = b.registered;
    key = b.key;
    once = λ t. omega (arith, b.once t, a.1 t);
  })
  Fate-trans k s s' s'' (inr a) (inl b) = inr (record {
    before = a.before;
    after = b.0 ∙ a.after;
    id = a.id;
    pipeline = a.pipeline;
    unit = a.unit;
    registered = a.registered;
    key = a.key;
    once = λ t. omega (arith, a.once t, b.1 t);
  })
  Fate-trans k s s' s'' (inr a) (inr b) = absurd (cc (a.after, b.before))

  pub Fate-fired :
      (k : String) (s s' : Session W) → Fate k s s' → has_id k s.fired_triggers ≡ true → Kept k s s'
  Fate-fired k s s' (inl a) h = a
  Fate-fired k s s' (inr a) h = absurd (cc (a.before, h))

  pub Fate-keeps :
      (k : String) (s s' : Session W)
      → Fate k s s'
      → has_id k s.fired_triggers ≡ true
      → has_id k s'.fired_triggers ≡ true
  Fate-keeps k s s' (inl a) h = a.0 ∙ h
  Fate-keeps k s s' (inr a) h = a.after

  -- A trigger line changes the fate of its own key only.
  pub told-Fate :
      (id u to k : String) (s s' : Session W)
      → (trigger_key id u === k) ≡ false
      → Fate k (record s { log = triggered id u to ∷ s.log }) s'
      → Fate k s s'
  told-Fate id u to k s s' apart (inl a) = inl (
    a.0,
    λ t. let h : lines k t s'.log ≡ 0 + lines k t s.log = rw apart at (a.1 t) in omega (arith, h),
  )
  told-Fate id u to k s s' apart (inr a) = inr (record {
    before = a.before;
    after = a.after;
    id = a.id;
    pipeline = a.pipeline;
    unit = a.unit;
    registered = a.registered;
    key = a.key;
    once = λ t.
        let h : lines k t s'.log
            ≡ 0 + lines k t s.log + targets t (unit_complete a.pipeline.triggers) =
          rw apart at (a.once t) in
        omega (arith, h);
  })

  pub fired_cons-Fate :
      (k j : String) (s s' : Session W)
      → (k === j) ≡ false
      → Fate j (record s { fired_triggers = k ∷ s.fired_triggers }) s'
      → Fate j s s'
  unfolding has_id
  fired_cons-Fate k j s s' apart (inl a) =
      let same : has_id j (k ∷ s.fired_triggers) ≡ has_id j s.fired_triggers =
        ground (arith, apart) in
      inl (a.0 ∙ same, a.1)
  fired_cons-Fate k j s s' apart (inr a) =
      let same : has_id j (k ∷ s.fired_triggers) ≡ has_id j s.fired_triggers =
        ground (arith, apart) in
      inr (record {
        before = sym same ∙ a.before;
        after = a.after;
        id = a.id;
        pipeline = a.pipeline;
        unit = a.unit;
        registered = a.registered;
        key = a.key;
        once = a.once;
      })
