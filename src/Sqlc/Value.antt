-- ===== src/Sqlc/Value.antt =====
-- ormx/sqlc/cnd.go: the logic constants, the dynamic values and the conditions of a query.
use freego.Prelude.{ℕ, ℤ, Text, Bool, true, false, List, [], ◌∷◌}

-- The int constants EQ_ to CNT_, in the order of the source; any other int is `undefined`.
pub data Logic : Type 0 where
  eq not_eq lt lte gt gte is_null is_not_null between between2 not_between : Logic
  in_ not_in like not_like or_ order_by left right inner sum avg min_ max_ cnt : Logic
  undefined : ℤ → Logic

-- `interface{}` values. A *Cnd that is passed to Or is the pair of its Escape flag and its
-- Conditions, all that is read of it there; values of the other dynamic types are opaque.
mutual
  pub data Value : Type 0 where
    nil : Value
    int : ℤ → Value
    str : Text → Value
    other : ℕ → Value
    nil_cnd : Value
    cnd : Bool → Conditions → Value

  pub data Values : Type 0 where
    no_value : Values
    value : Value → Values → Values

  -- Condition{Logic, Key, Value, Values, Alias}
  pub data Condition : Type 0 where
    condit : Logic → Text → Value → Values → Text → Condition

  pub data Conditions : Type 0 where
    no_condition : Conditions
    condition : Condition → Conditions → Conditions

-- `value == nil`
abbrev pub is_nil : Value → Bool
is_nil nil = true
is_nil _ = false

abbrev pub to_list : Values → List Value
to_list no_value = []
to_list (value v vs) = v ∷ to_list vs

-- `append(conditions, condit)`
unfoldable pub append_condition : Conditions → Condition → Conditions
append_condition no_condition c = condition c no_condition
append_condition (condition d ds) c = condition d (append_condition ds c)
