-- ===== src/AgentRt/HotCode/Upgrade.antt =====
-- agent_rt/hot_code.rs: an upgrade of a process and its rollback.
use zeptobeam.Base.{
  ℕ, ◌≡◌, refl, ap, ◌∙◌, List, [], ◌∷◌, ◌++◌, Option, none, some, String, string_eq, nat_eq,
  ==-refl, Result, ok, arith,
}
use zeptobeam.HashMap
use zeptobeam.HashMap.{HashMap}
use zeptobeam.AgentRt.HotCode.{
  HotCodeRegistry, HotCodeError, last, or_default, ok_or, and_then, get_factory,
  set_process_version, current_version, push_version_history, prepare_upgrade, prepare_rollback,
  not_tracked, no_history, no_previous,
}

last-append : (xs : List String) (x : String) → last (xs ++ x ∷ []) ≡ some x
unfolding last
last-append [] x = refl
last-append (y ∷ xs) x = ap (λ o. elim o [ none ↦ some y | some z ↦ some z ]) (last-append xs x)

module _ {F : Type 0} where
  -- An upgrade of a process from `current`: its version is noted, then the new one is set.
  abbrev pub upgraded : HotCodeRegistry F → ℕ → String → String → String → HotCodeRegistry F
  upgraded r pid name current target =
      set_process_version (push_version_history r pid current) pid name target

  -- A process that is tracked can be rolled back after an upgrade: if its version is `current` and
  -- both versions have factories, `prepare_upgrade` gives the target's factory beside `current`, and
  -- after the upgrade the process is on the target, and `prepare_rollback` gives `current` with its
  -- factory.
  pub prepare_rollback-upgraded :
      (r : HotCodeRegistry F) (pid : ℕ) (name current target : String) (new_factory old_factory : F)
      → current_version r pid ≡ some (name, current)
      → get_factory r name target ≡ ok new_factory
      → get_factory r name current ≡ ok old_factory
      → (prepare_upgrade r pid target ≡ ok (current, new_factory))
        × (current_version (upgraded r pid name current target) pid ≡ some (name, target))
        × (prepare_rollback (upgraded r pid name current target) pid ≡ ok (current, old_factory))
  unfolding current_version prepare_upgrade prepare_rollback set_process_version
      push_version_history get_factory
  prepare_rollback-upgraded r pid name current target new_factory old_factory now new old =
      let hs = or_default (HashMap.get r.version_history pid) in
      let tracked : HashMap.get (HashMap.insert r.process_versions pid (name, target)) pid
          ≡ some (name, target) =
        HashMap.get-insert r.process_versions pid (name, target) pid
        ∙ ground (arith, ==-refl pid) in
      let noted : HashMap.get (HashMap.insert r.version_history pid (hs ++ current ∷ [])) pid
          ≡ some (hs ++ current ∷ []) =
        HashMap.get-insert r.version_history pid (hs ++ current ∷ []) pid
        ∙ ground (arith, ==-refl pid) in
      let back : String → Option String → Result (String × F) HotCodeError = λ n o.
        and_then (ok_or no_previous o) (λ v. and_then (get_factory r n v) (λ f. ok (v, f))) in
      let from_history : String → Option (List String) → Result (String × F) HotCodeError =
        λ n o. and_then (ok_or no_history o) (λ h. back n (last h)) in
      (
        ap
              (λ o.
                and_then (ok_or not_tracked o)
                  (λ p. and_then (get_factory r p.0 target) (λ f. ok (p.1, f))))
              now
            ∙ ap (λ o. and_then o (λ f. ok (current, f))) new,
        tracked,
        ap
              (λ o. and_then (ok_or not_tracked o) (λ p.
                from_history p.0
                  (HashMap.get (HashMap.insert r.version_history pid (hs ++ current ∷ [])) pid)))
              tracked
            ∙ ap (from_history name) noted
            ∙ ap (back name) (last-append hs current)
            ∙ ap (λ o. and_then o (λ f. ok (current, f))) old,
      )
