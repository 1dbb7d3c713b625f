-- ===== src/Mongo/Tests.antt =====
-- Runs of the MongoDB manager on a small model, and the theorems at these inputs.
use freego.Prelude.{ℤ, pos, codes, ok, ◌≡◌, refl, true, none, some, [], ◌∷◌}
use freego.Errors.{done}
use freego.Dialect.{limit_offset}
use freego.Sqlc.Value.{lt, gte, int, no_value, condit, no_condition, condition, Conditions}
use freego.Sqlc.Cnd.{Cnd, new_cnd}
use freego.Sqlc.Object.{Object}
use freego.Sqld.Query.{sized}
use freego.Sqld.Tests.{test_env, test_runtime, user, user_cnd}
use freego.Mongo.Match.{test, build_mongo_match, tested, get_key}
use freego.Mongo.Match.Lookup.{lookup, over, entries_of, last_test, lookup-build_mongo_match}
use freego.Mongo.Options.{build_mongo_limit}
use freego.Mongo.Options.Limits.{build_mongo_limit-limit_offset}
use freego.Mongo.Session.{no_documents, Env}
use freego.Mongo.Session.Runs.{Runs}
use freego.Mongo.Writes.{mongo_update, mongo_delete, mongo_update_with_cnd, mongo_delete_by_cnd}
use freego.Mongo.Writes.Filters.{IsDeletion, IsChange, mongo_by_cnd-IsFiltered}
use freego.Mongo.Writes.Keys.{
  IsReplacement, IsDeletionOf, mongo_update-IsReplacement, mongo_delete-IsDeletionOf,
}

abbrev mongo_env : Env
mongo_env = record {
  client = record {
    has_collection = λ t. true;
    run = λ h c. done (pos 1);
    decode = λ h c. no_documents;
    all = λ h c. done no_documents;
    new_object_id = λ n. 9;
  };
  runtime = test_runtime;
  model_drivers = test_env.model_drivers;
}

-- An age from 18 on and below 30.
abbrev ages : Conditions
ages =
    condition (condit gte (codes "age") (int (pos 18)) no_value [])
      (condition (condit lt (codes "age") (int (pos 30)) no_value []) no_condition)

lookup-build_mongo_match_example :
    over (λ q. lookup (codes "age") (entries_of q)) (build_mongo_match ages)
    ≡ last_test (codes "age") none ages
lookup-build_mongo_match_example = lookup-build_mongo_match (codes "age") ages

-- The lower bound is lost.
upper_bound_alone : last_test (codes "age") none ages ≡ ok (some (test "$lt" (int (pos 30))))
unfolding last_test tested get_key
upper_bound_alone = refl

abbrev second_page : Cnd
second_page = record (new_cnd (some user)) {
  pagination = record (new_cnd none).pagination { page_no = pos 2; page_size = pos 20 };
}

build_mongo_limit-limit_offset_example :
    ◌≡◌ {A = ℤ × ℤ}
      (build_mongo_limit second_page)
      (limit_offset (sized second_page.pagination), (sized second_page.pagination).page_size)
unfolding new_cnd
build_mongo_limit-limit_offset_example = build_mongo_limit-limit_offset second_page refl refl

mongo_by_cnd-IsFiltered_example :
    Runs (IsDeletion user_cnd) (λ _. Unit {0}) (mongo_delete_by_cnd mongo_env user_cnd)
    × Runs (IsChange user_cnd) (λ _. Unit {0}) (mongo_update_with_cnd mongo_env user_cnd)
mongo_by_cnd-IsFiltered_example = mongo_by_cnd-IsFiltered mongo_env user_cnd

abbrev new_user : Object
new_user = record user { field = λ k. int (pos 0) }

mongo_update-IsReplacement_example :
    Runs (IsReplacement mongo_env (user ∷ [])) (λ _. Unit {0}) (mongo_update mongo_env (user ∷ []))
mongo_update-IsReplacement_example = mongo_update-IsReplacement mongo_env (user ∷ [])

mongo_delete-IsDeletionOf_example :
    Runs (IsDeletionOf mongo_env (user ∷ [])) (λ _. Unit {0}) (mongo_delete mongo_env (user ∷ []))
mongo_delete-IsDeletionOf_example = mongo_delete-IsDeletionOf mongo_env (user ∷ [])
