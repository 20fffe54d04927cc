-- ===== src/AgentRt/Worker/Answers.antt =====
-- agent_rt/orchestration.rs: how many results a worker sends.
use zeptobeam.Base.{
  ℕ, ◌+◌, ◌-◌, ◌≤◌, ◌<◌, ◌^◌, ◌≡◌, refl, List, [], ◌∷◌, Bool, true, false, ◌&&◌, not, arith,
  if◌then◌else◌, ok,
}
use zeptobeam.AgentRt.Json.{Json}
use zeptobeam.AgentRt.Types.{
  IoResult, Message, text, json, system, io_response, receive_timeout, exit, spawn_result, down,
  Action, continue, send_to, io_request, stop, shutdown,
}
use zeptobeam.AgentRt.Worker.{
  WorkerState, init, handle_message, handle_json, handle_response, follow_up, run_task,
}

abbrev pub is_request : {V B : Type 0} → Action V B → Bool
is_request (io_request op) = true
is_request _ = false

abbrev pub is_stop : {V B : Type 0} → Action V B → Bool
is_stop (stop reason) = true
is_stop _ = false

abbrev pub is_send : {V B : Type 0} → Action V B → Bool
is_send (send_to to message) = true
is_send _ = false

abbrev pub is_response : {V : Type 0} → Message V → Bool
is_response (system (io_response id result)) = true
is_response _ = false

-- A worker's run: its state, whether it goes on, and how many requests and answers it has made. An
-- answer is what it sends at a response.
pub record Progress : Type 0 where
  pub state : WorkerState
  pub goes_on : Bool
  pub requests : ℕ
  pub answers : ℕ

abbrev pub start : WorkerState → Progress
start s = record { state = s; goes_on = true; requests = 0; answers = 0 }

abbrev pub one_if : Bool → ℕ
one_if b = if b then 1 else 0

-- The progress by an action, if the worker goes on.
unfoldable pub proceed : {V B : Type 0} → Progress → Message V → Action V B × WorkerState → Progress
proceed p message r =
    if p.goes_on
    then record {
      state = r.1;
      goes_on = not (is_stop r.0);
      requests = p.requests + one_if (is_request r.0);
      answers = p.answers + one_if (is_response message && is_send r.0);
    }
    else p

record IsCounted (max : ℕ) (p : Progress) : Type 0 where
  limit : p.state.max_turns ≡ max
  requested : p.answers + one_if p.state.awaiting_result ≤ p.requests
  few : p.answers ≤ max - 1
  turns : p.goes_on ≡ true → (p.answers ≤ p.state.turn_count) × (p.state.turn_count ≤ max - 1)

module _ {V : Type 0} (B : Type 0) (values : Json V) where
  unfoldable pub advance : Progress → Message V → Progress
  unfolding proceed handle_message
  advance p message = proceed {V = V} {B = B} p message (handle_message values message p.state)

  unfoldable pub advance_all : Progress → List (Message V) → Progress
  unfolding advance
  advance_all p [] = p
  advance_all p (m ∷ ms) = advance_all (advance p m) ms

  -- A step at which the worker sends no answer and takes no turn.
  idle-IsCounted :
      (max : ℕ) (p : Progress) (m : Message V) (a : Action V B) (s : WorkerState)
      → IsCounted max p
      → s.max_turns ≡ p.state.max_turns
      → s.turn_count ≡ p.state.turn_count
      → one_if s.awaiting_result ≤ one_if p.state.awaiting_result + one_if (is_request a)
      → (is_response m && is_send a) ≡ false
      → IsCounted max (proceed p m (a, s))
  unfolding proceed
  idle-IsCounted max p m a s k same_max same_turns waits quiet = record {
    limit = ground (arith, k.limit, same_max);
    requested = ground (arith, k.requested, waits, quiet);
    few = ground (arith, k.few, quiet);
    turns = λ h. ground (arith, h, k.turns, same_turns, quiet);
  }

  response-IsCounted :
      (max : ℕ) (p : Progress) (id : ℕ) (result : IoResult V)
      → max < 2 ^ 64
      → IsCounted max p
      → IsCounted max (
          proceed {V = V} {B = B} p
            (system (io_response id result))
            (handle_response values result p.state))
  unfolding proceed handle_response
  response-IsCounted max p id result small k = record {
    limit = ground (arith, k.limit);
    requested = ground (arith, k.requested);
    few = ground (arith, k.few, k.turns, k.limit);
    turns = λ h. ground (arith, h, k.turns, k.limit);
  }

  json-IsCounted :
      (max : ℕ) (p : Progress) (payload : V)
      → IsCounted max p
      → IsCounted max
          (proceed {V = V} {B = B} p (json payload) (handle_json values payload p.state))
  unfolding handle_json follow_up run_task
  json-IsCounted max p payload k =
      idle-IsCounted max p (json payload) _ _ k (ground arith) (ground arith) (ground arith) refl

  advance-IsCounted :
      (max : ℕ) (p : Progress) (m : Message V)
      → max < 2 ^ 64
      → IsCounted max p
      → IsCounted max (advance p m)
  unfolding advance handle_message
  advance-IsCounted max p (json payload) small k = json-IsCounted max p payload k
  advance-IsCounted max p (system (io_response id result)) small k =
      response-IsCounted max p id result small k
  advance-IsCounted max p (system receive_timeout) small k =
      idle-IsCounted max p (system receive_timeout) (stop shutdown) p.state k refl refl
        (omega arith) refl
  advance-IsCounted max p (system (exit from reason)) small k =
      idle-IsCounted max p (system (exit from reason)) continue p.state k refl refl (omega arith)
        refl
  advance-IsCounted max p (system (spawn_result child monitor)) small k =
      idle-IsCounted max p (system (spawn_result child monitor)) continue p.state k refl refl
        (omega arith) refl
  advance-IsCounted max p (system (down monitor pid reason)) small k =
      idle-IsCounted max p (system (down monitor pid reason)) continue p.state k refl refl
        (omega arith) refl
  advance-IsCounted max p (text message) small k =
      idle-IsCounted max p (text message) continue p.state k refl refl (omega arith) refl

  advance_all-IsCounted :
      (max : ℕ) (ms : List (Message V)) (p : Progress)
      → max < 2 ^ 64
      → IsCounted max p
      → IsCounted max (advance_all p ms)
  unfolding advance_all
  advance_all-IsCounted max [] p small k = k
  advance_all-IsCounted max (m ∷ ms) p small k =
      advance_all-IsCounted max ms (advance p m) small (advance-IsCounted max p m small k)

  -- Whatever messages a new worker gets, it sends at most as many results as it has made requests,
  -- and at most `max_turns`; for `max_turns` below 2^64.
  pub answers-le-requests :
      (s : WorkerState) (args : V) (ms : List (Message V))
      → init values args ≡ ok s
      → s.max_turns < 2 ^ 64
      → ((advance_all (start s) ms).answers ≤ (advance_all (start s) ms).requests)
        × ((advance_all (start s) ms).answers ≤ s.max_turns)
  unfolding init
  answers-le-requests s args ms e small =
      let k = advance_all-IsCounted s.max_turns ms (start s) small (record {
        limit = refl;
        requested = ground (arith, e);
        few = omega arith;
        turns = λ _. ground (arith, e);
      }) in
      (omega (arith, k.requested), omega (arith, k.few))
