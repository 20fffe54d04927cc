-- ===== src/AgentRt/HotCode.antt =====
-- agent_rt/hot_code.rs: the versions of behaviors and the processes that run them. A behavior's
-- factory is of a type F.
pub mod Upgrade
pub mod Factories
use zeptobeam.Base.{
  ℕ, List, [], ◌∷◌, ◌++◌, map, Bool, true, false, ◌&&◌, not, Option, none, some, String, string_eq,
  nat_eq, ◌==◌, keep, length, ltb, if◌then◌else◌, Result, ok, err,
}
use zeptobeam.HashMap
use zeptobeam.HashMap.{HashMap}

pub record BehaviorVersion (F : Type 0) : Type 0 where
  pub name : String
  pub version : String
  pub factory : F

pub record HotCodeRegistry (F : Type 0) : Type 0 where
  pub behaviors : HashMap String (List (BehaviorVersion F))
  pub process_versions : HashMap ℕ (String × String)
  pub version_history : HashMap ℕ (List String)

-- The texts of `AgentRtError::HotCode`.
pub data HotCodeError : Type 0 where
  behavior_not_found : String → HotCodeError
  version_not_found : String → String → HotCodeError
  not_tracked no_history no_previous : HotCodeError

abbrev pub or_default : {A : Type 0} → Option (List A) → List A
or_default none = []
or_default (some xs) = xs

-- `ok_or_else`.
abbrev pub ok_or : {A : Type 0} → HotCodeError → Option A → Result A HotCodeError
ok_or e none = err e
ok_or e (some a) = ok a

-- `?` on a result.
abbrev pub and_then :
    {A B : Type 0} → Result A HotCodeError → (A → Result B HotCodeError) → Result B HotCodeError
and_then (err e) f = err e
and_then (ok a) f = f a

unfoldable pub find_version :
    {F : Type 0} → String → List (BehaviorVersion F) → Option (BehaviorVersion F)
find_version version [] = none
find_version version (v ∷ vs) = if v.version == version then some v else find_version version vs

-- `last` of a history.
unfoldable pub last : List String → Option String
last [] = none
last (x ∷ xs) = elim (last xs) [ none ↦ some x | some y ↦ some y ]

module _ {F : Type 0} where
  unfoldable pub new : HotCodeRegistry F
  new = record { behaviors = []; process_versions = []; version_history = [] }

  unfoldable pub register : HotCodeRegistry F → String → String → F → HotCodeRegistry F
  register r name version factory = record r {
    behaviors = HashMap.insert r.behaviors name (
        or_default (HashMap.get r.behaviors name)
        ++ record { name = name; version = version; factory = factory } ∷ []);
  }

  unfoldable pub list_versions : HotCodeRegistry F → String → List String
  list_versions r name = map (λ v. v.version) (or_default (HashMap.get r.behaviors name))

  unfoldable pub get_factory : HotCodeRegistry F → String → String → Result F HotCodeError
  unfolding find_version
  get_factory r name version =
      and_then (ok_or (behavior_not_found name) (HashMap.get r.behaviors name)) (λ versions.
        and_then (ok_or (version_not_found version name) (find_version version versions))
          (λ v. ok v.factory))

  unfoldable pub set_process_version : HotCodeRegistry F → ℕ → String → String → HotCodeRegistry F
  set_process_version r pid name version = record r {
    process_versions = HashMap.insert r.process_versions pid (name, version);
  }

  unfoldable pub current_version : HotCodeRegistry F → ℕ → Option (String × String)
  current_version r pid = HashMap.get r.process_versions pid

  unfoldable pub remove_process : HotCodeRegistry F → ℕ → HotCodeRegistry F
  remove_process r pid = record r {
    process_versions = HashMap.remove r.process_versions pid;
    version_history = HashMap.remove r.version_history pid;
  }

  unfoldable pub pids_on_version : HotCodeRegistry F → String → String → List ℕ
  pids_on_version r name version =
      map (λ e. e.0) (keep (λ e. (e.1.0 == name) && (e.1.1 == version)) r.process_versions)

  unfoldable pub pids_for_behavior : HotCodeRegistry F → String → List (ℕ × String)
  pids_for_behavior r name = map (λ e. (e.0, e.1.1)) (keep (λ e. e.1.0 == name) r.process_versions)

  unfoldable pub prepare_upgrade : HotCodeRegistry F → ℕ → String → Result (String × F) HotCodeError
  unfolding get_factory
  prepare_upgrade r pid target_version =
      and_then (ok_or not_tracked (HashMap.get r.process_versions pid))
        (λ p. and_then (get_factory r p.0 target_version) (λ factory. ok (p.1, factory)))

  unfoldable pub push_version_history : HotCodeRegistry F → ℕ → String → HotCodeRegistry F
  push_version_history r pid version = record r {
    version_history =
        HashMap.insert r.version_history pid
          (or_default (HashMap.get r.version_history pid) ++ version ∷ []);
  }

  unfoldable pub prepare_rollback : HotCodeRegistry F → ℕ → Result (String × F) HotCodeError
  unfolding get_factory last
  prepare_rollback r pid = and_then (ok_or not_tracked (HashMap.get r.process_versions pid)) (λ p.
      and_then (ok_or no_history (HashMap.get r.version_history pid)) (λ history.
        and_then (ok_or no_previous (last history))
          (λ prev_vsn. and_then (get_factory r p.0 prev_vsn) (λ factory. ok (prev_vsn, factory)))))

  -- The pids on the version at the head of the list, which has three or more.
  unfoldable pub on_oldest : HotCodeRegistry F → String → List (BehaviorVersion F) → List ℕ
  unfolding pids_on_version
  on_oldest r name [] = []
  on_oldest r name (v ∷ vs) =
      if ltb (length (v ∷ vs)) 3 then [] else pids_on_version r name v.version

  unfoldable pub stale_pids : HotCodeRegistry F → String → List ℕ
  unfolding on_oldest
  stale_pids r name = elim (HashMap.get r.behaviors name) [
    | none ↦ []
    | some versions ↦ on_oldest r name versions
  ]
