-- ===== src/Target/Registry/Entries.antt =====
-- What the checks of one entry of a snapshot in src/target/registry.ts let through.
use decompi.Base.{
  ◌∙◌, sym, inl, inr, ◌≡◌, ◌≢◌, Option, none, some, String, ◌===◌, or_else, arith, Bool-cases,
  ne_of_test,
}
use decompi.Base.Results.{
  ok, err, ◌>>=◌, Value, undefined, null, boolean, number, text, array, object,
}
use decompi.Target.WorkItem.{WorkItem}
use decompi.Target.Deps.{DepEdge, Capability}
use decompi.Target.Registry.{
  Place, SnapshotError, must_be_non_empty, must_be_object, optional_string, Checked, Fields,
  non_empty, required_string, meta_value, check_item, check_amounts, check_columns, item_named,
  check_dep, check_capability,
}
use decompi.Target.Registry.WellFormed.{IsObject}

-- What a check that succeeds gives has a property.
abbrev pub Gives : {A : Type 0} → (A → Type 0) → Checked A → Type 0
Gives P (ok a) = P a
Gives P (err e) = Unit

-- A check, and what is made of its result.
pub bind-Gives :
    {A B : Type 0} (P : A → Type 0) (Q : B → Type 0) (m : Checked A) (f : A → Checked B)
    → Gives P m
    → ((a : A) → P a → Gives Q (f a))
    → Gives Q (m >>= f)
bind-Gives P Q (ok a) f h then_do = then_do a h
bind-Gives P Q (err e) f h then_do = tt

abbrev pub Anything : {A : Type 0} → A → Type 0
Anything a = Unit

anything : {A : Type 0} (m : Checked A) → Gives Anything m
anything (ok a) = tt
anything (err e) = tt

pub six-Gives :
    {A B C D E F G : Type 0} (Q : G → Type 0) (m1 : Checked A) (m2 : Checked B) (m3 : Checked C)
    (m4 : Checked D) (m5 : Checked E) (m6 : Checked F) (k : A → B → C → D → E → F → Checked G)
    → ((a : A) (b : B) (c : C) (d : D) (e : E) (f : F) → Gives Q (k a b c d e f))
    → Gives Q
        (m1 >>= λ a. m2 >>= λ b. m3 >>= λ c. m4 >>= λ d. m5 >>= λ e. m6 >>= λ f. k a b c d e f)
six-Gives Q (err x) m2 m3 m4 m5 m6 k h = tt
six-Gives Q (ok a) (err x) m3 m4 m5 m6 k h = tt
six-Gives Q (ok a) (ok b) (err x) m4 m5 m6 k h = tt
six-Gives Q (ok a) (ok b) (ok c) (err x) m5 m6 k h = tt
six-Gives Q (ok a) (ok b) (ok c) (ok d) (err x) m6 k h = tt
six-Gives Q (ok a) (ok b) (ok c) (ok d) (ok e) (err x) k h = tt
six-Gives Q (ok a) (ok b) (ok c) (ok d) (ok e) (ok f) k h = h a b c d e f

pub four-Gives :
    {A B C D G : Type 0} (P1 : A → Type 0) (P2 : B → Type 0) (P3 : C → Type 0) (P4 : D → Type 0)
    (Q : G → Type 0) (m1 : Checked A) (m2 : Checked B) (m3 : Checked C) (m4 : Checked D)
    (k : A → B → C → D → Checked G)
    → Gives P1 m1
    → Gives P2 m2
    → Gives P3 m3
    → Gives P4 m4
    → ((a : A) (b : B) (c : C) (d : D) → P1 a → P2 b → P3 c → P4 d → Gives Q (k a b c d))
    → Gives Q (m1 >>= λ a. m2 >>= λ b. m3 >>= λ c. m4 >>= λ d. k a b c d)
four-Gives P1 P2 P3 P4 Q (err x) m2 m3 m4 k p1 p2 p3 p4 h = tt
four-Gives P1 P2 P3 P4 Q (ok a) (err x) m3 m4 k p1 p2 p3 p4 h = tt
four-Gives P1 P2 P3 P4 Q (ok a) (ok b) (err x) m4 k p1 p2 p3 p4 h = tt
four-Gives P1 P2 P3 P4 Q (ok a) (ok b) (ok c) (err x) k p1 p2 p3 p4 h = tt
four-Gives P1 P2 P3 P4 Q (ok a) (ok b) (ok c) (ok d) k p1 p2 p3 p4 h = h a b c d p1 p2 p3 p4

abbrev IsNamed : String → Type 0
IsNamed s = s ≢ ""

non_empty-IsNamed : (e : SnapshotError) (o : Option String) → Gives IsNamed (non_empty e o)
unfolding non_empty
non_empty-IsNamed e none = tt
non_empty-IsNamed e (some s) = elim (Bool-cases (s === "")) [
  | inl h ↦ rw (non_empty, h) tt
  | inr h ↦ rw (non_empty, h) (ne_of_test s "" h)
]

required_string-IsNamed :
    (raw : Fields) (field : String) (place : Place)
    → Gives IsNamed (required_string raw field place)
unfolding required_string
required_string-IsNamed raw field place =
    bind-Gives Anything IsNamed (optional_string raw field place)
      (non_empty (must_be_non_empty place field)) (anything (optional_string raw field place))
      (λ o h. non_empty-IsNamed (must_be_non_empty place field) o)

meta_value-IsObject : (e : SnapshotError) (v : Value) → Gives IsObject (meta_value e v)
unfolding meta_value
meta_value-IsObject e undefined = tt
meta_value-IsObject e (object f) = tt
meta_value-IsObject e null = tt
meta_value-IsObject e (boolean b) = tt
meta_value-IsObject e (number n) = tt
meta_value-IsObject e (text s) = tt
meta_value-IsObject e (array vs) = tt

-- What an entry is known for, before its references are looked at.
abbrev pub IsItem : WorkItem → Type 0
IsItem item = IsNamed item.id × IsNamed item.kind × IsNamed item.status × IsObject item.meta

abbrev pub IsDep : DepEdge → Type 0
IsDep dep = IsNamed dep.from_id × IsNamed dep.to_id

abbrev pub IsCapability : Capability → Type 0
IsCapability c = IsNamed c.work_item_id × IsNamed c.capability

-- The fields that were named stay.
abbrev Extends : WorkItem → WorkItem → Type 0
Extends old item =
    (item.id ≡ old.id) × (item.kind ≡ old.kind) × (item.status ≡ old.status) × IsObject item.meta

check_amounts-Extends :
    (place : Place) (raw : Fields) (item : WorkItem)
    → Gives (Extends item) (check_amounts place raw item)
unfolding check_amounts
check_amounts-Extends place raw item =
    ground (arith, meta_value-IsObject (must_be_object place "meta") (raw "meta"))

check_columns-Extends :
    (place : Place) (raw : Fields) (item : WorkItem)
    → Gives (Extends item) (check_columns place raw item)
unfolding check_columns
check_columns-Extends place raw item =
    six-Gives (Extends item) (optional_string raw "unitId" place)
      (optional_string raw "region" place) (optional_string raw "symbol" place)
      (optional_string raw "address" place) (optional_string raw "milestone" place)
      (optional_string raw "requiredLevel" place)
      (λ unit_id region symbol address milestone level. check_amounts place raw (record item {
        unit_id = unit_id;
        region = region;
        symbol = symbol;
        address = address;
        milestone = milestone;
        required_level = level;
      }))
      (λ u r s a m l. check_amounts-Extends place raw _)

pub check_item-IsItem : (place : Place) (raw : Fields) → Gives IsItem (check_item place raw)
unfolding check_item
check_item-IsItem place raw =
    four-Gives IsNamed IsNamed Anything IsNamed IsItem (required_string raw "id" place)
      (required_string raw "kind" place) (optional_string raw "lifecycle" place)
      (required_string raw "status" place)
      (λ id kind lifecycle status.
        check_columns place raw (item_named id kind (or_else lifecycle "pending") status))
      (required_string-IsNamed raw "id" place) (required_string-IsNamed raw "kind" place)
      (anything (optional_string raw "lifecycle" place))
      (required_string-IsNamed raw "status" place)
      (λ id kind lifecycle status hid hkind hlife hstatus.
        named (check_columns place raw (item_named id kind (or_else lifecycle "pending") status)) id
          kind (or_else lifecycle "pending") status hid hkind hstatus
          (check_columns-Extends place raw
            (item_named id kind (or_else lifecycle "pending") status)))
  where
    named :
        (m : Checked WorkItem) (id kind lifecycle status : String)
        → IsNamed id
        → IsNamed kind
        → IsNamed status
        → Gives (Extends (item_named id kind lifecycle status)) m
        → Gives IsItem m
    named (err e) id kind lifecycle status hid hkind hstatus h = tt
    named (ok item) id kind lifecycle status hid hkind hstatus (eid, ekind, estatus, meta) = (
      (λ e. hid (sym eid ∙ e)),
      (λ e. hkind (sym ekind ∙ e)),
      (λ e. hstatus (sym estatus ∙ e)),
      meta,
    )

pub check_dep-IsDep : (place : Place) (raw : Fields) → Gives IsDep (check_dep place raw)
unfolding check_dep
check_dep-IsDep place raw =
    ground
      (arith, required_string-IsNamed raw "fromId" place, required_string-IsNamed raw "toId" place)

pub check_capability-IsCapability :
    (place : Place) (raw : Fields) → Gives IsCapability (check_capability place raw)
unfolding check_capability
check_capability-IsCapability place raw = ground (
  arith,
  required_string-IsNamed raw "workItemId" place,
  required_string-IsNamed raw "capability" place,
)
