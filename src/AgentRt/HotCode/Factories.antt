-- ===== src/AgentRt/HotCode/Factories.antt =====
-- agent_rt/hot_code.rs: which factory a version has.
use mathlib.Core.Option as O
use zeptobeam.Base.{
  ◌≡◌, refl, ap, ◌∙◌, List, [], ◌∷◌, ◌++◌, ◌&&◌, inl, inr, Option, none, some, String, string_eq,
  ◌==◌, Result, ok, err, arith, Option-cases, Bool-cases, if◌then◌else◌,
}
use zeptobeam.HashMap
use zeptobeam.AgentRt.HotCode.{
  HotCodeRegistry, HotCodeError, BehaviorVersion, find_version, or_default, register, get_factory,
}

abbrev pub to_option : {A : Type 0} → Result A HotCodeError → Option A
to_option (ok a) = some a
to_option (err e) = none

module _ {F : Type 0} where
  found : String → Option (List (BehaviorVersion F)) → Option F
  found version o = O.map (λ v. v.factory) (find_version version (or_default o))

  to_option-get_factory :
      (r : HotCodeRegistry F) (name version : String)
      → to_option (get_factory r name version) ≡ found version (HashMap.get r.behaviors name)
  unfolding get_factory found find_version
  to_option-get_factory r name version = elim (Option-cases (HashMap.get r.behaviors name)) [
    | inl e ↦ ground (arith, e)
    | inr (vs, e) ↦ elim (Option-cases (find_version version vs)) [
      | inl none_found ↦ ground (arith, e, none_found)
      | inr (v, f) ↦ ground (arith, e, f)
    ]
  ]

  find_version-append :
      (version : String) (vs : List (BehaviorVersion F)) (v : BehaviorVersion F)
      → find_version version (vs ++ v ∷ []) ≡ (elim (find_version version vs) [
        | some w ↦ some w
        | none ↦ if v.version == version then some v else none
      ])
  unfolding find_version
  find_version-append version [] v = refl
  find_version-append version (w ∷ vs) v = elim (Bool-cases (w.version == version)) [
    | inl hit ↦ rw (hit, find_version) refl
    | inr miss ↦ rw (miss, find_version) (find_version-append version vs v)
  ]

  -- After a registration, each version of each behavior has the factory that it had before; only the
  -- version registered gets the new factory, and only if it had none.
  pub get_factory-register :
      (r : HotCodeRegistry F) (name version : String) (factory : F) (name' version' : String)
      → to_option (get_factory (register r name version factory) name' version')
        ≡ (elim (to_option (get_factory r name' version')) [
          | some old ↦ some old
          | none ↦ if (name == name') && (version == version') then some factory else none
        ])
  unfolding register found
  get_factory-register r name version factory name' version' =
      let v : BehaviorVersion F = record { name = name; version = version; factory = factory } in
      let vs = or_default (HashMap.get r.behaviors name) in
      let before = to_option-get_factory r name' version' in
      to_option-get_factory (register r name version factory) name' version'
      ∙ ap (found version') (HashMap.get-insert r.behaviors name (vs ++ v ∷ []) name')
      ∙ elim (Bool-cases (name == name')) [
        | inl hit ↦
            let same : HashMap.get r.behaviors name ≡ HashMap.get r.behaviors name' =
              ap (HashMap.get r.behaviors) ((string_eq.beq_iff name name').0 hit) in
            ground (
              arith,
              hit,
              before,
              ap (λ o. found version' (some (or_default o))) same,
              ap (λ o. found version' o) same,
              find_version-append version' vs v,
            )
        | inr miss ↦ ground (arith, miss, before)
      ]
