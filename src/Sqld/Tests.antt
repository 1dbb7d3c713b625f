-- ===== src/Sqld/Tests.antt =====
-- Runs of the relational manager on a small model, and the theorems at these inputs.
use freego.Prelude.{
  pos, codes, panic, ok, trim_end, ◌≡◌, refl, true, false, none, some, List, [], ◌∷◌, length, ◌+◌,
  if◌then◌else◌, text_eq,
}
use freego.Sqlc.Value.{
  eq, in_, or_, nil, int, str, cnd, Values, no_value, value, condit, Conditions, no_condition,
  condition,
}
use freego.Sqlc.Object.{Object}
use freego.Sqlc.Builder.{asc, desc, groupby, sort_condit}
use freego.Sqlc.Cnd.{Cnd, new_cnd}
use freego.Sqld.Where.{Part, build_where_case}
use freego.Sqld.Where.Clauses.{flat, clauses, args, sound, sound_values, when}
use freego.Sqld.Where.Refinement.{build_where_case_lem}
use freego.Sqlc.Calls.{CondCall, eq_call, in_call, or_call, chain}
use freego.Sqld.Where.Totality.{build_where_case-total}
use freego.Sqld.Delete.Runs.{Ends, deletion, deleted, delete_by_cnd-Ends}
use freego.Sqld.Where.Placeholders.{question_marks, key_marks, build_where_case-placeholders}
use freego.Sqld.Model.{done, int64_kind, string_kind, FieldElem, MdlDriver, Runtime}
use freego.Sqld.Exec.{
  affected, Rows, queried, Env, Rdb, prepare, exec, rows_affected, add_sync, find_model, error,
}
use freego.Sqld.Exec.Adds.{Adds, All}
use freego.Sqld.Delete.{delete_by_cnd, delete_by_id, delete_objects, where_of, where_text}
use freego.Sqld.Order.{build_group_by, build_sort_by}
use freego.Sqld.Order.Texts.{
  clause_of, group_fields, sort_fields, build_group_by-text, build_sort_by-text,
}
use freego.Sqld.Delete.ById.{IsDeletionById, delete_by_id-IsDeletionById}
use freego.Sqld.Delete.Ids.{IsDeletionOf, delete_objects-IsDeletionOf}
use freego.Sqld.Delete.Safety.{IsDeletion, delete_by_cnd-IsDeletion}
use freego.Sqld.Update.{update_with_cnd}
use freego.Sqld.Update.Safety.{IsUpdate, update_with_cnd-IsUpdate}
use freego.Sqld.Session.{commit, rollback, sync, close}
use freego.Sqld.Transaction.{
  Call, delete_call, update_by_cnd_call, delete_by_cnd_call, run_call, run_calls,
}
use freego.Sqld.Transaction.Close.{transaction_close}
use freego.Sqld.Transaction.Sync.{IsNoUpdate, close-IsNoUpdate}
use freego.Sqld.Transaction.Untraced.{keyless_call-close}

abbrev pub id_elem : FieldElem
id_elem = record {
  auto_id = false;
  primary = true;
  ignore = false;
  is_date = false;
  is_blob = false;
  is_known_slice = false;
  is_known_map = false;
  is_bytes = false;
  is_decimal = false;
  field_name = codes "Id";
  field_json_name = codes "id";
  field_kind = int64_kind;
  field_offset = 0;
}

abbrev pub name_elem : FieldElem
name_elem = record id_elem {
  primary = false;
  field_name = codes "Name";
  field_json_name = codes "name";
  field_kind = string_kind;
  field_offset = 8;
}

abbrev pub user_model : MdlDriver
user_model = record {
  table_name = codes "user";
  to_mongo = true;
  pk_offset = 0;
  pk_kind = int64_kind;
  is_object_id = false;
  pk_name = codes "id";
  auto_id = false;
  field_elem = id_elem ∷ name_elem ∷ [];
}

abbrev keyless_model : MdlDriver
keyless_model = record user_model { table_name = codes "log"; pk_name = [] }

abbrev pub test_runtime : Runtime
test_runtime = record {
  format_time = λ z. codes "2023-01-01";
  now_text = codes "2023-01-02";
  marshal = λ v. done (codes "{}");
  decimal_string = λ v. codes "0";
  read_time = λ t. done (pos 0);
  unmarshal = λ e t. done (str t);
  parse_decimal = λ t. done (str t);
  parse_float64 = λ t. done (str t);
  to_float32 = λ v. v;
  bool_value = λ b. if b then int (pos 1) else int (pos 0);
  next_iid = λ n. pos 700;
  next_sid = λ n. codes "700";
}

abbrev no_rows : Rows
no_rows = record { columns = done []; scanned = []; totals = []; err = none }

abbrev pub test_env : Env
test_env = record {
  driver = record {
    prepare = λ h t sql. none;
    exec = λ h st. affected (pos 1) (done (pos 7));
    query = λ h st. queried no_rows;
  };
  runtime = test_runtime;
  new_object = λ o. record o { field = λ k. nil };
  model_drivers =
      λ table. if text_eq table (codes "user") then some user_model else some keyless_model;
}

abbrev tx_manager : Rdb
tx_manager = record {
  ds_name = codes "master";
  database = codes "test";
  timeout = pos 10000;
  open_tx = true;
  tx = true;
  auto_id = false;
  mongo_sync = true;
  errors = [];
  mgo_sync_data = [];
  history = [];
  drawn = 0;
}

abbrev pub user : Object
user = record {
  table = codes "user";
  field = λ k. if text_eq (k ∷ []) (0 ∷ []) then int (pos 3) else str (codes "ann");
}

abbrev log_row : Object
log_row = record user { table = codes "log" }

abbrev two_ids : Values
two_ids = value (int (pos 1)) (value (int (pos 2)) no_value)

-- `name` = ? and (`id` in(?,?)  or `age` = ? )
abbrev nested : Conditions
nested = condition (condit eq (codes "name") (str (codes "ann")) no_value []) (
    condition
      (condit or_ [] nil
        (value (cnd true (condition (condit in_ (codes "id") nil two_ids []) no_condition)) (
          value
            (cnd true (condition (condit eq (codes "age") (int (pos 9)) no_value []) no_condition))
            no_value))
        [])
      no_condition)

nested_text :
    build_where_case true nested
    ≡ ok (
      codes " `name` = ? and ( `id` in(?,?)  or `age` = ? ) and",
      str (codes "ann") ∷ int (pos 1) ∷ int (pos 2) ∷ int (pos 9) ∷ [],
    )
unfolding build_where_case trim_end
nested_text = refl

build_where_case_lem_example :
    build_where_case true nested
    ≡ when (sound nested) (flat (codes " and") (clauses true nested), args nested)
build_where_case_lem_example = build_where_case_lem true nested

abbrev nested_part : Part
nested_part = (
  codes " `name` = ? and ( `id` in(?,?)  or `age` = ? ) and",
  str (codes "ann") ∷ int (pos 1) ∷ int (pos 2) ∷ int (pos 9) ∷ [],
)

build_where_case-placeholders_example :
    question_marks nested_part.0 ≡ length nested_part.1 + key_marks nested
build_where_case-placeholders_example =
    build_where_case-placeholders true nested nested_part nested_text

abbrev pub user_cnd : Cnd
user_cnd = record (new_cnd none) {
  model = some user;
  escape = true;
  conditions = nested;
  upsets = (codes "name", str (codes "bob")) ∷ [];
}

abbrev empty_cnd : Cnd
empty_cnd = record user_cnd { conditions = no_condition }

delete_by_cnd-IsDeletion_example :
    Adds (IsDeletion test_env user_cnd) (delete_by_cnd test_env user_cnd)
delete_by_cnd-IsDeletion_example = delete_by_cnd-IsDeletion test_env user_cnd

update_with_cnd-IsUpdate_example :
    Adds (IsUpdate test_env user_cnd) (update_with_cnd test_env user_cnd)
update_with_cnd-IsUpdate_example = update_with_cnd-IsUpdate test_env user_cnd

-- The second call fails, since its builder has no condition.
abbrev calls : List Call
calls = update_by_cnd_call user_cnd ∷ delete_by_cnd_call empty_cnd ∷ []

abbrev after : Rdb
after = elim (run_calls test_env calls tx_manager) [ panic ↦ tx_manager | ok r ↦ r.1 ]

run_calls_test : run_calls test_env calls tx_manager ≡ ok (true, after)
unfolding run_calls run_call delete_by_cnd update_with_cnd build_where_case where_of where_text
    trim_end prepare exec rows_affected add_sync find_model error
run_calls_test = refl

transaction_close_example : close true after ≡ rollback ∷ []
transaction_close_example =
    transaction_close test_env calls tx_manager after true (tt, (tt, tt)) refl refl refl
      run_calls_test

close-IsNoUpdate_example : All IsNoUpdate (close true after)
close-IsNoUpdate_example =
    close-IsNoUpdate test_env calls tx_manager after true true refl run_calls_test

-- A call that succeeds.
abbrev update_calls : List Call
update_calls = update_by_cnd_call user_cnd ∷ []

abbrev updated : Rdb
updated = elim (run_calls test_env update_calls tx_manager) [ panic ↦ tx_manager | ok r ↦ r.1 ]

update_calls_test : run_calls test_env update_calls tx_manager ≡ ok (false, updated)
unfolding run_calls run_call update_with_cnd build_where_case where_of where_text trim_end prepare
    exec rows_affected add_sync find_model error
update_calls_test = refl

keyless_call-close_example :
    (run_calls test_env (update_by_cnd_call user_cnd ∷ (delete_call (log_row ∷ []) ∷ [])) tx_manager
      ≡ ok (true, updated))
    × (close true updated ≡ commit ∷ sync updated)
keyless_call-close_example =
    keyless_call-close test_env (delete_call (log_row ∷ [])) update_calls [] tx_manager updated
      false ((keyless_model, refl, refl), refl) (tt, tt) refl refl refl update_calls_test

abbrev cond_calls : List CondCall
cond_calls =
    eq_call (codes "name") (str (codes "ann"))
    ∷ (in_call (codes "id") two_ids ∷ (or_call (value (cnd true nested) no_value) ∷ []))

build_where_case-total_example :
    build_where_case true (chain cond_calls (new_cnd (some user))).conditions
    ≡ ok (
      flat (codes " and") (clauses true (chain cond_calls (new_cnd (some user))).conditions),
      args (chain cond_calls (new_cnd (some user))).conditions,
    )
unfolding sound_values
build_where_case-total_example =
    build_where_case-total true (some user) cond_calls (tt, (tt, ((refl, refl), tt)))

delete_by_cnd-Ends_example :
    Ends tx_manager
      (deletion user_cnd user_model true)
      (some (pos 1))
      (delete_by_cnd test_env user_cnd tx_manager)
unfolding sound args deleted
delete_by_cnd-Ends_example =
    delete_by_cnd-Ends test_env user_cnd user user_model tx_manager refl refl refl refl refl refl

delete_by_id-IsDeletionById_example :
    Adds
      (IsDeletionById test_env user (int (pos 1) ∷ (int (pos 2) ∷ [])))
      (delete_by_id test_env user (int (pos 1) ∷ (int (pos 2) ∷ [])))
delete_by_id-IsDeletionById_example =
    delete_by_id-IsDeletionById test_env user (int (pos 1) ∷ (int (pos 2) ∷ []))

delete_objects-IsDeletionOf_example :
    Adds (IsDeletionOf test_env user (user ∷ [])) (delete_objects test_env (user ∷ (user ∷ [])))
delete_objects-IsDeletionOf_example = delete_objects-IsDeletionOf test_env user (user ∷ [])

-- A query of users by name and then by the newest id.
abbrev pub listing : Cnd
unfolding asc desc groupby sort_condit
listing =
    groupby (codes "name" ∷ ([] ∷ []))
      (desc (codes "id" ∷ []) (asc (codes "name" ∷ []) (new_cnd (some user))))

build_group_by-text_example :
    build_group_by (some listing) ≡ ok (clause_of " group by" (group_fields true listing.groupbys))
unfolding listing new_cnd
build_group_by-text_example = build_group_by-text listing refl

build_sort_by-text_example :
    build_sort_by (some listing) ≡ ok (clause_of " order by" (sort_fields true listing.orderbys))
unfolding listing new_cnd
build_sort_by-text_example = build_sort_by-text listing refl
