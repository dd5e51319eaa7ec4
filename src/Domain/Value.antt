-- ===== src/Domain/Value.antt =====
-- Go's `any`, as encoding/json and yaml.v3 fill it: the inputs of tools, the documents that a
-- condition reads, and the payloads of events.
use workflow_execution_engin.Prelude.{
  ℕ, zero, suc, ℤ, Bool, String, Option, none, some, if◌then◌else◌, ◌==◌,
}

-- A float64, by its bits. Its operations are the parameter `FloatOps`.
abbrev pub Float64 : Type 0
Float64 = ℕ

mutual
  pub data Value : Type 0 where
    null : Value
    bool : Bool → Value
    float : Float64 → Value
    int : ℤ → Value
    text : String → Value
    array : Items → Value
    object : Fields → Value

  pub data Fields : Type 0 where
    end : Fields
    field : String → Value → Fields → Fields

  pub data Items : Type 0 where
    nil : Items
    cons : Value → Items → Items

-- arr[i], where it is in range
unfoldable pub item : Items → ℕ → Option Value
item nil i = none
item (cons v vs) zero = some v
item (cons v vs) (suc i) = item vs i

-- len(arr)
unfoldable pub items_length : Items → ℕ
items_length nil = 0
items_length (cons v vs) = suc (items_length vs)

-- obj[key]
unfoldable pub member : Fields → String → Option Value
member end k = none
member (field j v fs) k = if j == k then some v else member fs k

-- The string at a key of a payload: v, _ := payload[key].(string)
unfoldable pub text_member : Fields → String → Option String
text_member fs k = elim (member fs k) [
  | none ↦ none
  | some v ↦ elim v [ text s ↦ some s | _ ↦ none ]
]

-- The arithmetic of float64, which the language supplies.
pub record FloatOps : Type 0 where
  pub add : Float64 → Float64 → Float64
  pub mul : Float64 → Float64 → Float64
  pub less : Float64 → Float64 → Bool
  pub less_eq : Float64 → Float64 → Bool
  pub equal : Float64 → Float64 → Bool
  pub of_int : ℤ → Float64
