-- ===== src/AgentRt/Ets.antt =====
-- agent_rt/ets.rs: in-memory tables with owners, heirs and access rights. JSON values are a
-- parameter V, and the static counter of table ids is a field.
pub mod Limits
pub mod Access
use text.Mathlib.Text.{starts_with}
use zeptobeam.Base.{
  ℕ, ◌+◌, List, [], ◌∷◌, Bool, true, false, not, ◌&&◌, ◌||◌, ◌↔◌, ◌≡◌, Option, none, some, is_some,
  String, string_eq, length, leb, if◌then◌else◌, Result, ok, err, ◌==◌, nat_eq, Eq, nat_beq,
  nat_beq_iff, u64, keep, map, arith,
}
use zeptobeam.HashMap
use zeptobeam.HashMap.{HashMap}

pub data AccessType : Type 0 where
  public protected private : AccessType

pub data TableId : Type 0 where
  ets dets : ℕ → TableId

abbrev pub id_beq : TableId → TableId → Bool
id_beq (ets m) (ets n) = nat_beq m n
id_beq (dets m) (dets n) = nat_beq m n
id_beq (ets m) (dets n) = false
id_beq (dets m) (ets n) = false

pub id_beq_iff : (a b : TableId) → (id_beq a b ≡ true) ↔ (a ≡ b)
id_beq_iff (ets m) (ets n) = ground (arith, nat_beq_iff m n)
id_beq_iff (dets m) (dets n) = ground (arith, nat_beq_iff m n)
id_beq_iff (ets m) (dets n) = ground arith
id_beq_iff (dets m) (ets n) = ground arith

instance abbrev pub id_eq : Eq TableId
id_eq = record { beq = id_beq; beq_iff = id_beq_iff }

pub record EtsTable (V : Type 0) : Type 0 where
  pub name : String
  pub access : AccessType
  pub owner : ℕ
  pub heir : Option ℕ
  pub contents : HashMap String V
  pub max_entries : ℕ

pub record EtsRegistry (V : Type 0) : Type 0 where
  pub tables : HashMap TableId (EtsTable V)
  pub max_tables : ℕ
  pub max_entries_per_table : ℕ
  pub next_table_id : ℕ

-- The texts of `AgentRtError::Ets`, by their kind.
pub data EtsError : Type 0 where
  max_tables_exceeded table_not_found not_owner write_denied read_denied table_full : EtsError

unfoldable pub new : {V : Type 0} → ℕ → ℕ → ℕ → EtsRegistry V
new next max_tables max_entries = record {
  tables = [];
  max_tables = max_tables;
  max_entries_per_table = max_entries;
  next_table_id = next;
}

unfoldable pub may_write : {V : Type 0} → EtsTable V → ℕ → Bool
may_write t caller = elim t.access [
  | public ↦ true
  | protected ↦ caller == t.owner
  | private ↦ caller == t.owner
]

unfoldable pub may_read : {V : Type 0} → EtsTable V → ℕ → Bool
may_read t caller = elim t.access [ public ↦ true | protected ↦ true | private ↦ caller == t.owner ]

unfoldable pub new_table : {V : Type 0} → String → AccessType → ℕ → Option ℕ → ℕ → EtsTable V
new_table name access owner heir max_entries = record {
  name = name;
  access = access;
  owner = owner;
  heir = heir;
  contents = [];
  max_entries = max_entries;
}

unfoldable pub create :
    {V : Type 0}
    → EtsRegistry V
    → String
    → AccessType
    → ℕ
    → Option ℕ
    → EtsRegistry V × Result TableId EtsError
unfolding new_table
create r name access owner heir =
    if leb r.max_tables (length r.tables) then (r, err max_tables_exceeded) else (
      record r {
        next_table_id = u64 (r.next_table_id + 1);
        tables =
            HashMap.insert r.tables (ets r.next_table_id)
              (new_table name access owner heir r.max_entries_per_table);
      },
      ok (ets r.next_table_id),
    )

unfoldable pub destroy :
    {V : Type 0} → EtsRegistry V → TableId → ℕ → EtsRegistry V × Result (Unit {0}) EtsError
destroy r tid caller = elim (HashMap.get r.tables tid) [
  | none ↦ (r, err table_not_found)
  | some t ↦
      if not (t.owner == caller)
      then (r, err not_owner)
      else (record r { tables = HashMap.remove r.tables tid }, ok tt)
]

-- A query of a table that the caller may read.
unfoldable pub read :
    {V A : Type 0} → EtsRegistry V → TableId → ℕ → (HashMap String V → A) → Result A EtsError
unfolding may_read
read r tid caller query = elim (HashMap.get r.tables tid) [
  | none ↦ err table_not_found
  | some t ↦ if may_read t caller then ok (query t.contents) else err read_denied
]

unfoldable pub get :
    {V : Type 0} → EtsRegistry V → TableId → String → ℕ → Result (Option V) EtsError
unfolding read
get r tid key caller = read r tid caller (λ m. HashMap.get m key)

unfoldable pub count : {V : Type 0} → EtsRegistry V → TableId → ℕ → Result ℕ EtsError
unfolding read
count r tid caller = read r tid caller (λ m. length m)

unfoldable pub keys : {V : Type 0} → EtsRegistry V → TableId → ℕ → Result (List String) EtsError
unfolding read
keys r tid caller = read r tid caller (λ m. HashMap.keys m)

unfoldable pub filter :
    {V : Type 0}
    → EtsRegistry V
    → TableId
    → ℕ
    → (String → V → Bool)
    → Result (List (String × V)) EtsError
unfolding read
filter r tid caller predicate = read r tid caller (λ m. keep (λ e. predicate e.0 e.1) m)

unfoldable pub scan :
    {V : Type 0} → EtsRegistry V → TableId → String → ℕ → Result (List (String × V)) EtsError
unfolding read
scan r tid prefix caller = read r tid caller (λ m. keep (λ e. starts_with e.0 prefix) m)

unfoldable pub put_entry : {V : Type 0} → String → V → EtsTable V → EtsTable V
put_entry key value t = record t { contents = HashMap.insert t.contents key value }

unfoldable pub delete_entry : {V : Type 0} → String → EtsTable V → EtsTable V
delete_entry key t = record t { contents = HashMap.remove t.contents key }

unfoldable pub is_full_for : {V : Type 0} → EtsTable V → String → Bool
is_full_for t key =
    not (is_some (HashMap.get t.contents key)) && leb t.max_entries (length t.contents)

unfoldable pub put :
    {V : Type 0}
    → EtsRegistry V
    → TableId
    → String
    → V
    → ℕ
    → EtsRegistry V × Result (Unit {0}) EtsError
unfolding may_write is_full_for put_entry
put r tid key value caller = elim (HashMap.get r.tables tid) [
  | none ↦ (r, err table_not_found)
  | some t ↦
      if not (may_write t caller)
      then (r, err write_denied)
      else if is_full_for t key
      then (r, err table_full)
      else (record r { tables = HashMap.modify r.tables tid (put_entry key value) }, ok tt)
]

unfoldable pub delete_key :
    {V : Type 0} → EtsRegistry V → TableId → String → ℕ → EtsRegistry V × Result (Unit {0}) EtsError
unfolding may_write delete_entry
delete_key r tid key caller = elim (HashMap.get r.tables tid) [
  | none ↦ (r, err table_not_found)
  | some t ↦
      if not (may_write t caller)
      then (r, err write_denied)
      else (record r { tables = HashMap.modify r.tables tid (delete_entry key) }, ok tt)
]

unfoldable pub is_orphan : {V : Type 0} → ℕ → TableId × EtsTable V → Bool
is_orphan pid (tid, t) = t.owner == pid && not (is_some t.heir)

-- The id and the heir of a table that goes over to the heir.
unfoldable pub to_transfer : {V : Type 0} → ℕ → HashMap TableId (EtsTable V) → List (TableId × ℕ)
to_transfer pid [] = []
to_transfer pid ((tid, t) ∷ ts) = elim t.heir [
  | none ↦ to_transfer pid ts
  | some h ↦ if t.owner == pid then (tid, h) ∷ to_transfer pid ts else to_transfer pid ts
]

unfoldable pub remove_all :
    {V : Type 0} → List TableId → HashMap TableId (EtsTable V) → HashMap TableId (EtsTable V)
remove_all [] ts = ts
remove_all (tid ∷ tids) ts = remove_all tids (HashMap.remove ts tid)

unfoldable pub hand_over : {V : Type 0} → ℕ → EtsTable V → EtsTable V
hand_over heir t = record t { owner = heir; heir = none }

unfoldable pub transfer_all :
    {V : Type 0} → List (TableId × ℕ) → HashMap TableId (EtsTable V) → HashMap TableId (EtsTable V)
unfolding hand_over
transfer_all [] ts = ts
transfer_all ((tid, h) ∷ more) ts = transfer_all more (HashMap.modify ts tid (hand_over h))

unfoldable pub handle_process_death : {V : Type 0} → EtsRegistry V → ℕ → EtsRegistry V
unfolding is_orphan remove_all to_transfer transfer_all
handle_process_death r pid =
    let left = remove_all (HashMap.keys (keep (is_orphan pid) r.tables)) r.tables in
    record r { tables = transfer_all (to_transfer pid left) left }
