-- ===== src/AgentRt/Ets/Access.antt =====
-- agent_rt/ets.rs: what a write changes, and who may write.
use zeptobeam.Base.{
  ℕ, ◌≡◌, ◌≢◌, refl, sym, ◌∙◌, subst, nat_beq_iff, true, false, some, String, string_eq, arith,
  ◌&&◌, if◌then◌else◌, Option-cases, Bool-cases, inl, inr, ◌⊎◌, ◌==◌, nat_eq, ok, is_ok,
}
use zeptobeam.HashMap
use zeptobeam.AgentRt.Ets.{
  public, TableId, id_eq, id_beq_iff, EtsTable, EtsRegistry, destroy, put, put_entry, delete_key,
  is_full_for, may_write, may_read, read, get,
}

-- A `put` fails and changes nothing, or the table is there, the caller may write, and there is room.
pub put-cases :
    {V : Type 0} (r : EtsRegistry V) (tid : TableId) (key : String) (value : V) (caller : ℕ)
    → (((put r tid key value caller).0 ≡ r) × (is_ok (put r tid key value caller).1 ≡ false))
      ⊎ ((t : EtsTable V) × (HashMap.get r.tables tid ≡ some t)
          × (may_write t caller ≡ true)
          × (is_full_for t key ≡ false)
          × (put r tid key value caller
              ≡ (record r { tables = HashMap.modify r.tables tid (put_entry key value) }, ok tt)))
unfolding put
put-cases r tid key value caller = elim (Option-cases (HashMap.get r.tables tid)) [
  | inl gone ↦ inl (rw (gone, put) (refl, refl))
  | inr (t, here) ↦ elim (Bool-cases (may_write t caller)) [
    | inl allowed ↦ elim (Bool-cases (is_full_for t key)) [
      | inl full ↦ inl (rw (here, put) (rw (allowed, full) (refl, refl)))
      | inr room ↦ inr (t, here, allowed, room, rw (here, put) (rw (allowed, room) refl))
    ]
    | inr denied ↦ inl (rw (here, put) (rw denied (refl, refl)))
  ]
]

module _ {V : Type 0} (r : EtsRegistry V) (tid : TableId) (key : String) (value : V)
    (caller : ℕ) where
  get-written :
      (t : EtsTable V) (tid' : TableId) (key' : String) (reader : ℕ)
      → HashMap.get r.tables tid ≡ some t
      → get
          (record r { tables = HashMap.modify r.tables tid (put_entry key value) })
          tid'
          key'
          reader
        ≡ (if (tid == tid') && (key == key') && is_ok (get r tid key' reader)
            then ok (some value)
            else get r tid' key' reader)
  unfolding get read put_entry may_read
  get-written t tid' key' reader here = elim (Bool-cases (tid == tid')) [
    | inl hit ↦
        let there : HashMap.get r.tables tid' ≡ some t =
          subst (λ i. HashMap.get r.tables i ≡ some t) ((id_beq_iff tid tid').0 hit) here in
        let now : HashMap.get (HashMap.modify r.tables tid (put_entry key value)) tid'
            ≡ some (put_entry key value t) =
          ground (arith, HashMap.get-modify r.tables tid (put_entry key value) tid') in
        ground (arith, now, there, here, hit, HashMap.get-insert t.contents key value key')
    | inr miss ↦ ground (arith, HashMap.get-modify r.tables tid (put_entry key value) tid')
  ]

  -- After a successful `put`, a process that may read the table finds the value under the key, and
  -- every other `get`, of another key, another table or by another process, is answered as before.
  pub get-put :
      (tid' : TableId) (key' : String) (reader : ℕ)
      → is_ok (put r tid key value caller).1 ≡ true
      → get (put r tid key value caller).0 tid' key' reader ≡ (
          if (tid == tid') && (key == key') && is_ok (get r tid key' reader)
          then ok (some value)
          else get r tid' key' reader)
  get-put tid' key' reader done = elim (put-cases r tid key value caller) [
    | inl (_, failed) ↦ absurd (let no : false ≡ true = sym failed ∙ done in cc no)
    | inr (t, here, _, _, e) ↦ rw e (get-written t tid' key' reader here)
  ]

-- The writes that a process asks for.
pub data Write (V : Type 0) : Type 0 where
  write_put : String → V → Write V
  write_delete_key : String → Write V
  write_destroy : Write V

unfoldable pub attempt : {V : Type 0} → EtsRegistry V → TableId → Write V → ℕ → EtsRegistry V
attempt r tid (write_put key value) caller = (put r tid key value caller).0
attempt r tid (write_delete_key key) caller = (delete_key r tid key caller).0
attempt r tid write_destroy caller = (destroy r tid caller).0

foreign-may_write :
    {V : Type 0} (t : EtsTable V) (caller : ℕ)
    → caller ≢ t.owner
    → t.access ≢ public
    → may_write t caller ≡ false
unfolding may_write
foreign-may_write t caller foreign shut = ground (arith, nat_beq_iff caller t.owner)

-- A process that does not own a table that is not public changes nothing by a `put`, `delete_key` or
-- `destroy` of that table.
pub attempt-foreign :
    {V : Type 0} (r : EtsRegistry V) (tid : TableId) (w : Write V) (caller : ℕ) (t : EtsTable V)
    → HashMap.get r.tables tid ≡ some t
    → caller ≢ t.owner
    → t.access ≢ public
    → attempt r tid w caller ≡ r
unfolding attempt delete_key destroy
attempt-foreign r tid (write_put key value) caller t here foreign shut =
    elim (put-cases r tid key value caller) [
      | inl (same, _) ↦ same
      | inr (u, there, allowed, _, _) ↦
          absurd (ground (arith, foreign-may_write t caller foreign shut))
    ]
attempt-foreign r tid (write_delete_key key) caller t here foreign shut =
    ground (arith, foreign-may_write t caller foreign shut)
attempt-foreign r tid write_destroy caller t here foreign shut =
    ground (arith, nat_beq_iff t.owner caller)
