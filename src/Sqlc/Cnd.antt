-- ===== src/Sqlc/Cnd.antt =====
-- ormx/sqlc/cnd.go: the Cnd struct and its parts.
use freego.Prelude.{ℤ, pos, Text, Bool, true, false, Option, none, List, []}
use freego.Dialect.{Dialect, zero_dialect}
use freego.Sqlc.Value.{Logic, Value, Condition, Conditions, no_condition}
use freego.Sqlc.Object.{Object}

pub record Collation : Type 0 where
  pub locale : Text
  pub case_level : Bool
  pub case_first : Text
  pub strength : ℤ
  pub numeric_ordering : Bool
  pub alternate : Text
  pub max_variable : Text
  pub normalization : Bool
  pub backwards : Bool

pub record JoinCond : Type 0 where
  pub type : Logic
  pub table : Text
  pub alias : Text
  pub on : Text

pub record FromCond : Type 0 where
  pub table : Text
  pub alias : Text

pub record CacheConfig : Type 0 where
  pub is_open : Bool
  pub prefix : Text
  pub key : Text
  pub expire : ℤ

-- Cnd. The Upsets map is the list of its entries in the order in which `range` visits them.
pub record Cnd : Type 0 where
  pub condit_part : List Text
  pub conditions : Conditions
  pub any_fields : List Text
  pub any_not_fields : List Text
  pub distincts : List Text
  pub groupbys : List Text
  pub orderbys : List Condition
  pub aggregates : List Condition
  pub upsets : List (Text × Value)
  pub model : Option Object
  pub collation_config : Option Collation
  pub pagination : Dialect
  pub from_cond : Option FromCond
  pub join_cond : List JoinCond
  pub sample_size : ℤ
  pub limit_size : ℤ
  pub cache_config : CacheConfig
  pub escape : Bool

-- M(model...)
unfoldable pub new_cnd : Option Object → Cnd
new_cnd model = record {
  condit_part = [];
  conditions = no_condition;
  any_fields = [];
  any_not_fields = [];
  distincts = [];
  groupbys = [];
  orderbys = [];
  aggregates = [];
  upsets = [];
  model = model;
  collation_config = none;
  pagination = zero_dialect;
  from_cond = none;
  join_cond = [];
  sample_size = pos 0;
  limit_size = pos 0;
  cache_config = record { is_open = false; prefix = []; key = []; expire = pos 0 };
  escape = true;
}
