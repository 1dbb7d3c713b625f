-- ===== src/Sqlc/Calls.antt =====
-- ormx/sqlc/cnd.go: chains of the calls that add a condition to a Cnd.
use freego.Prelude.{Text, List, [], ◌∷◌}
use freego.Sqlc.Value.{Value, Values}
use freego.Sqlc.Cnd.{Cnd}
use freego.Sqlc.Builder.{
  un_escape, eq_condit, not_eq_condit, lt_condit, lte_condit, gt_condit, gte_condit, like_condit,
  not_like_condit, is_null_condit, is_not_null_condit, between_condit, in_date, not_between_condit,
  in_condit, not_in_condit, or_condit,
}

pub data CondCall : Type 0 where
  eq_call not_eq_call lt_call lte_call gt_call gte_call : Text → Value → CondCall
  like_call not_like_call : Text → Value → CondCall
  is_null_call is_not_null_call : Text → CondCall
  between_call in_date_call not_between_call : Text → Value → Value → CondCall
  in_call not_in_call : Text → Values → CondCall
  or_call : Values → CondCall
  un_escape_call : CondCall

unfoldable pub call : CondCall → Cnd → Cnd
unfolding un_escape eq_condit not_eq_condit lt_condit lte_condit gt_condit gte_condit like_condit
    not_like_condit is_null_condit is_not_null_condit between_condit in_date not_between_condit
    in_condit not_in_condit or_condit
call (eq_call k v) = eq_condit k v
call (not_eq_call k v) = not_eq_condit k v
call (lt_call k v) = lt_condit k v
call (lte_call k v) = lte_condit k v
call (gt_call k v) = gt_condit k v
call (gte_call k v) = gte_condit k v
call (like_call k v) = like_condit k v
call (not_like_call k v) = not_like_condit k v
call (is_null_call k) = is_null_condit k
call (is_not_null_call k) = is_not_null_condit k
call (between_call k a b) = between_condit k a b
call (in_date_call k a b) = in_date k a b
call (not_between_call k a b) = not_between_condit k a b
call (in_call k vs) = in_condit k vs
call (not_in_call k vs) = not_in_condit k vs
call (or_call vs) = or_condit vs
call un_escape_call = un_escape

-- `c.A(…).B(…)`, from the left.
unfoldable pub chain : List CondCall → Cnd → Cnd
unfolding call
chain [] c = c
chain (f ∷ fs) c = chain fs (call f c)
