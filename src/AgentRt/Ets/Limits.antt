-- ===== src/AgentRt/Ets/Limits.antt =====
-- agent_rt/ets.rs: the limits on tables and entries.
use mathlib.Core.Option.{some-injective}
use zeptobeam.Base.{
  ℕ, ◌≤◌, ◌≡◌, refl, sym, ◌∙◌, List, [], ◌∷◌, false, Option, some, String, string_eq, arith, length,
  leb, Bool-cases, inl, inr, keep, ap, nat_eq,
}
use zeptobeam.HashMap
use zeptobeam.HashMap.{HashMap}
use zeptobeam.AgentRt.Ets.Access.{put-cases}
use zeptobeam.AgentRt.Ets.{
  AccessType, TableId, id_eq, ets, EtsTable, EtsRegistry, new, new_table, create, destroy, put,
  put_entry, delete_key, delete_entry, is_full_for, is_orphan, remove_all, to_transfer,
  transfer_all, hand_over, handle_process_death,
}

-- A table that is within the limit of entries.
pub record Fits {V : Type 0} (limit : ℕ) (t : EtsTable V) : Type 0 where
  pub max : t.max_entries ≡ limit
  pub within : length t.contents ≤ limit

pub record Limited {V : Type 0} (max_tables limit : ℕ) (r : EtsRegistry V) : Type 0 where
  pub same_tables : r.max_tables ≡ max_tables
  pub same_limit : r.max_entries_per_table ≡ limit
  pub few : length r.tables ≤ max_tables
  pub small : HashMap.Every (Fits limit) r.tables

pub data Op (V : Type 0) : Type 0 where
  op_create : String → AccessType → ℕ → Option ℕ → Op V
  op_destroy : TableId → ℕ → Op V
  op_put : TableId → String → V → ℕ → Op V
  op_delete_key : TableId → String → ℕ → Op V
  op_process_death : ℕ → Op V

unfoldable pub perform : {V : Type 0} → EtsRegistry V → Op V → EtsRegistry V
perform r (op_create name access owner heir) = (create r name access owner heir).0
perform r (op_destroy tid caller) = (destroy r tid caller).0
perform r (op_put tid key value caller) = (put r tid key value caller).0
perform r (op_delete_key tid key caller) = (delete_key r tid key caller).0
perform r (op_process_death pid) = handle_process_death r pid

unfoldable pub perform_all : {V : Type 0} → EtsRegistry V → List (Op V) → EtsRegistry V
unfolding perform
perform_all r [] = r
perform_all r (o ∷ os) = perform_all (perform r o) os

module _ {V : Type 0} (n limit : ℕ) (r : EtsRegistry V) (h : Limited n limit r) where
  create-Limited :
      (name : String) (access : AccessType) (owner : ℕ) (heir : Option ℕ)
      → Limited n limit (create r name access owner heir).0
  unfolding create new_table
  create-Limited name access owner heir = elim (Bool-cases (leb r.max_tables (length r.tables))) [
    | inl full ↦ rw full h
    | inr room ↦ rw room (record {
      same_tables = h.same_tables;
      same_limit = h.same_limit;
      few = ground (
        arith,
        h.same_tables,
        h.few,
        room,
        HashMap.length-insert r.tables (ets r.next_table_id)
            (new_table name access owner heir r.max_entries_per_table),
      );
      small =
          HashMap.insert-Every (Fits limit) r.tables _ _ h.small
            (record { max = h.same_limit; within = omega arith });
    })
  ]

  modified-Limited :
      (tid : TableId) (f : EtsTable V → EtsTable V)
      → ((t : EtsTable V) → HashMap.get r.tables tid ≡ some t → Fits limit t → Fits limit (f t))
      → Limited n limit (record r { tables = HashMap.modify r.tables tid f })
  modified-Limited tid f keeps = record {
    same_tables = h.same_tables;
    same_limit = h.same_limit;
    few = omega (arith, h.few, HashMap.length-modify r.tables tid f);
    small = HashMap.modify-Every (Fits limit) r.tables tid f h.small keeps;
  }

  removed-Limited :
      (tid : TableId) → Limited n limit (record r { tables = HashMap.remove r.tables tid })
  removed-Limited tid = record {
    same_tables = h.same_tables;
    same_limit = h.same_limit;
    few = omega (arith, h.few, HashMap.length-remove r.tables tid);
    small = HashMap.remove-Every (Fits limit) r.tables tid h.small;
  }

  destroy-Limited : (tid : TableId) (caller : ℕ) → Limited n limit (destroy r tid caller).0
  unfolding destroy
  destroy-Limited tid caller = ground (arith, h, removed-Limited tid)

  put_entry-Fits :
      (key : String) (value : V) (t : EtsTable V)
      → is_full_for t key ≡ false
      → Fits limit t
      → Fits limit (put_entry key value t)
  unfolding put_entry is_full_for
  put_entry-Fits key value t room f = record {
    max = f.max;
    within = ground (arith, HashMap.length-insert t.contents key value, f.max, f.within, room);
  }

  put-Limited :
      (tid : TableId) (key : String) (value : V) (caller : ℕ)
      → Limited n limit (put r tid key value caller).0
  put-Limited tid key value caller = elim (put-cases r tid key value caller) [
    | inl same ↦ rw same.0 h
    | inr (t, here, allowed, room, done) ↦ rw done (
        modified-Limited tid (put_entry key value) (λ u there f.
          put_entry-Fits key value u
            (ap (λ v. is_full_for v key) (some-injective _ _ (sym there ∙ here)) ∙ room) f))
  ]

  delete_key-Limited :
      (tid : TableId) (key : String) (caller : ℕ) → Limited n limit (delete_key r tid key caller).0
  unfolding delete_key delete_entry
  delete_key-Limited tid key caller = ground (
    arith,
    h,
    modified-Limited tid (delete_entry key) (λ t _ f. record {
      max = f.max;
      within = omega (arith, f.within, HashMap.length-remove t.contents key);
    }),
  )

module _ {V : Type 0} (n limit : ℕ) where
  remove_all-Limited :
      (tids : List TableId) (r : EtsRegistry V)
      → Limited n limit r
      → Limited n limit (record r { tables = remove_all tids r.tables })
  unfolding remove_all
  remove_all-Limited [] r h = h
  remove_all-Limited (tid ∷ tids) r h =
      remove_all-Limited tids (record r { tables = HashMap.remove r.tables tid })
        (removed-Limited n limit r h tid)

  transfer_all-Limited :
      (more : List (TableId × ℕ)) (r : EtsRegistry V)
      → Limited n limit r
      → Limited n limit (record r { tables = transfer_all more r.tables })
  unfolding transfer_all hand_over
  transfer_all-Limited [] r h = h
  transfer_all-Limited ((tid, heir) ∷ more) r h =
      transfer_all-Limited more (record r { tables = HashMap.modify r.tables tid (hand_over heir) })
        (modified-Limited n limit r h tid (hand_over heir)
          (λ t _ f. record { max = f.max; within = f.within }))

  death-Limited :
      (pid : ℕ) (r : EtsRegistry V)
      → Limited n limit r
      → Limited n limit (handle_process_death r pid)
  unfolding handle_process_death
  death-Limited pid r h =
      let orphans = HashMap.keys (keep (is_orphan pid) r.tables) in
      let left = remove_all orphans r.tables in
      transfer_all-Limited (to_transfer pid left) (record r { tables = left })
        (remove_all-Limited orphans r h)

  perform-Limited :
      (o : Op V) (r : EtsRegistry V) → Limited n limit r → Limited n limit (perform r o)
  unfolding perform
  perform-Limited (op_create name access owner heir) r h =
      create-Limited n limit r h name access owner heir
  perform-Limited (op_destroy tid caller) r h = destroy-Limited n limit r h tid caller
  perform-Limited (op_put tid key value caller) r h = put-Limited n limit r h tid key value caller
  perform-Limited (op_delete_key tid key caller) r h = delete_key-Limited n limit r h tid key caller
  perform-Limited (op_process_death pid) r h = death-Limited pid r h

  perform_all_from :
      (os : List (Op V)) (r : EtsRegistry V)
      → Limited n limit r
      → Limited n limit (perform_all r os)
  unfolding perform_all
  perform_all_from [] r h = h
  perform_all_from (o ∷ os) r h = perform_all_from os (perform r o) (perform-Limited o r h)

  -- Whatever operations processes perform on a new registry, deaths of processes included, it never
  -- holds more tables, nor any table more entries, than its limits allow.
  pub perform_all-Limited :
      (next : ℕ) (os : List (Op V)) → Limited n limit (perform_all (new next n limit) os)
  perform_all-Limited next os = perform_all_from os (new next n limit) start
    where
      start : Limited {V = V} n limit (new {V = V} next n limit)
      start =
          unfold new in
          record { same_tables = refl; same_limit = refl; few = omega arith; small = tt }
