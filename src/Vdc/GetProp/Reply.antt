-- ===== src/Vdc/GetProp/Reply.antt =====
-- The properties that the callback makes, and what it asks of the libraries.
use dss_vdc_venta.Prelude.{
  ℕ, ◌+◌, ◌-◌, ◌^◌, Bool, true, false, Option, none, some, List, [], ◌∷◌, ◌++◌, ℤ, pos, negsuc, leb,
  length, guard, ◌>>◌,
}
use dss_vdc_venta.CString.{Bytes, strcmp_eq}
use dss_vdc_venta.Vdc.SetProp.{PropertyName}

-- A value under a name, by the call that adds it. `null_text` is a null pointer in place of a text.
pub data Leaf : Type 0 where
  text bytes : Bytes → Leaf
  null_text : Leaf
  uint : ℕ → Leaf
  int double : ℤ → Leaf
  bool : Bool → Leaf

-- A value, or a property with members of its own, by dsvdc_property_add_property.
pub data Node (A : Type 0) : Type 0 where
  leaf : Leaf → Node A
  group : List (Bytes × A) → Node A

-- The three levels of properties: `nProp`, `reply`, and `property` itself.
abbrev pub Fields : Type 0
Fields = List (Bytes × Leaf)

abbrev pub Reply : Type 0
Reply = List (Bytes × Node Leaf)

abbrev pub Answer : Type 0
Answer = List (Bytes × Node (Node Leaf))

-- The query, and what the libraries answer meanwhile: the names of the queried properties, the name
-- of the first element of the first of them, whether the k-th call of dsvdc_property_new succeeds,
-- the entries that dsvdc_property_add_property makes under a name of a null pointer, the time after
-- k such calls, the name of the host, the number that "%d" prints of the pointer
-- `venta.humifier.id`, and the icons.
pub record Query : Type 0 where
  pub names : List PropertyName
  pub first_element : PropertyName
  pub new_ok : ℕ → Bool
  pub add_null : Bytes → Reply
  pub now : ℕ → ℤ
  pub hostname : Bytes
  pub id_as_int : ℤ
  pub icon16 : Bytes
  pub icon48 : Bytes

-- What one name of the query appends, and the calls of dsvdc_property_new so far; `none` is
-- undefined behaviour.
abbrev pub Built : Type 0
Built = Option (Answer × ℕ)

abbrev pub nothing : ℕ → Built
nothing k = some ([], k)

abbrev pub add_leaf : Bytes → Leaf → ℕ → Built
add_leaf name value k = some ((name, leaf value) ∷ [], k)

abbrev pub add_group : Bytes → Option (Reply × ℕ) → Built
add_group name none = none
add_group name (some (reply, k)) = some ((name, group reply) ∷ [], k)

-- A reply that is made, filled and added, or left out where it cannot be made.
unfoldable pub grouped : Query → Bytes → (ℕ → Option (Reply × ℕ)) → ℕ → Built
grouped q name fill k = elim (q.new_ok k) [
  | true ↦ add_group name (fill (k + 1))
  | false ↦ some ([], k + 1)
]

-- `uint64_t` from `int`.
abbrev pub to_uint : ℤ → ℕ
to_uint (pos n) = n
to_uint (negsuc n) = 2 ^ 64 - 1 - n

-- strcpy of a beginning into a buffer, and strcat behind it; a null pointer cannot be read.
unfoldable pub joined_in : ℕ → Bytes → Option Bytes → Option Bytes
joined_in size start none = none
joined_in size start (some s) = do guard (leb (length (start ++ s) + 1) size); some (start ++ s)

abbrev pub add_text : Bytes → ℕ → Option Bytes → Built
add_text name k none = none
add_text name k (some s) = add_leaf name (text s) k

-- One branch of a chain of tests on the name.
abbrev pub Case : Type 0
Case = Bytes × (Bytes → ℕ → Built)

abbrev pub constant : Leaf → Bytes → ℕ → Built
constant value name k = add_leaf name value k

-- The chain: the first branch whose name it is; nothing is added where there is none.
unfoldable pub run_case : List Case → Bytes → ℕ → Built
unfolding strcmp_eq
run_case [] name k = nothing k
run_case ((key, build) ∷ cases) name k = elim (strcmp_eq name key) [
  | true ↦ build name k
  | false ↦ run_case cases name k
]
