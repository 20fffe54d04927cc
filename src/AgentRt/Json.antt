-- ===== src/AgentRt/Json.antt =====
-- What the runtime uses of the JSON library's values, and of `str::split('.')`: parameters.
use zeptobeam.Base.{ℕ, List, Bool, Option, String}

pub record Json (V : Type 0) : Type 0 where
  pub null : V
  pub get : V → String → Option V
  pub as_str : V → Option String
  pub as_u64 : V → Option ℕ
  pub as_bool : V → Option Bool
  pub as_array : V → Option (List V)
  pub to_text : V → String
  pub equal : V → V → Bool
  pub string : String → V
  pub number : ℕ → V
  pub boolean : Bool → V
  pub array : List V → V
  pub object : List (String × V) → V
  pub split : String → List String
